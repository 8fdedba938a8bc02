-- ===== src/Intc/Tests.antt =====
-- The theorems about os/interrupts/interrupt.c at concrete devices.
use kernel_team_project.Base.{
  ℕ, ◌/◌, ◌%◌, ◌≡◌, refl, Bool, true, false, ◌&&◌, ◌==◌, ltb, some, arith, if◌then◌else◌, bit, [],
  ◌∷◌,
}
use kernel_team_project.Regs.{Bus, Machine}
use kernel_team_project.Intc.{Handlers, intc_init, intc_enable_irq, num_interrupts}
use kernel_team_project.Intc.Masks.{mir_clr, mir_set, Controller, intc_enable_irq_lem}
use kernel_team_project.Intc.Table.{register_all, latest, register_all-intc_init}

-- A controller that is its masks.
abbrev Mask : Type 0
Mask = ℕ → Bool

abbrev set_masks : (addr value : ℕ) → Mask → Mask
set_masks addr value d irq =
    if ltb irq 128 && (addr == mir_clr (irq / 32) && bit value (irq % 32))
    then false
    else if ltb irq 128 && (addr == mir_set (irq / 32) && bit value (irq % 32))
    then true
    else d irq

abbrev mask_bus : Bus Mask
mask_bus = record { load = λ addr d. (0, d); store = set_masks }

mask_controller : Controller mask_bus
mask_controller = record {
  is_masked = λ d irq. d irq;
  clears = λ d n value irq h. ground arith;
  sets = λ d n value irq h. ground arith;
  clr_reads = λ d n irq h. (refl, refl);
  set_reads = λ d n irq h. (refl, refl);
}

abbrev all_masked : Machine Mask
all_masked = record { dev = λ _. true; console = [] }

-- The interrupt of timer 2.
intc_enable_irq_lem_example :
    (d : Mask) × (intc_enable_irq mask_bus 68 all_masked
      ≡ some (true, record all_masked { dev = d }))
    × ((k : ℕ) → d k ≡ (if k == 68 then false else true))
unfolding mask_controller
intc_enable_irq_lem_example =
    intc_enable_irq_lem mask_bus mask_controller 68 all_masked (omega arith)

-- A controller that reports its reset at once; 200 is no number of an interrupt.
abbrev one_bus : Bus ℕ
one_bus = record { load = λ addr d. (1, d); store = λ addr value d. value }

abbrev one_start : Machine ℕ
one_start = record { dev = 0; console = [] }

register_all-intc_init_example :
    (table' : Handlers ℕ) × (m' : Machine ℕ) × (intc_init one_bus 1 99 (λ _. 0) one_start
      ≡ some (table', m'))
    × ((k : ℕ)
        → register_all table' ((72, 5) ∷ (200, 6) ∷ []) k
          ≡ (if ltb k num_interrupts then latest 99 ((72, 5) ∷ (200, 6) ∷ []) k else 0))
register_all-intc_init_example =
    register_all-intc_init one_bus 1 0 99 (λ _. 0) one_start ((72, 5) ∷ (200, 6) ∷ []) (omega arith)
      (record { goes_on = λ i h. absurd (omega arith); ends = refl })
