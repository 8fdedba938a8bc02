-- ===== src/Intc/Table.antt =====
-- The table of handlers of os/interrupts/interrupt.c.
use kernel_team_project.Base.{
  ℕ, zero, suc, ◌+◌, ◌<◌, ◌≡◌, ◌∙◌, ◌==◌, ◌!=◌, ◌&&◌, leb, ltb, add32, some, arith, if◌then◌else◌,
  List, [], ◌∷◌, bit_and, update,
}
use kernel_team_project.Regs.{Bus, Machine, run-bind, wait_while}
use kernel_team_project.Regs.Poll.{EndsAt, wait_while_found}
use kernel_team_project.Intc.{
  Handlers, default_handlers, intc_register_irq, intc_init, num_interrupts, intc_base_addr,
  intc_status_off, intc_sysconfig_off,
}

module _ {H : Type 0} where
  pub default_handlers_lem :
      (h : H) (rounds i : ℕ) (table : Handlers H) (k : ℕ)
      → default_handlers h rounds i table k ≡ (if leb i k && ltb k (i + rounds) then h else table k)
  unfolding default_handlers
  default_handlers_lem h zero i table k = ground arith
  default_handlers_lem h (suc rounds) i table k =
      ground (arith, default_handlers_lem h rounds (i + 1) (update table i h) k)

  -- A sequence of registrations, and the handler that was last given for an interrupt, if any was.
  unfoldable pub register_all : Handlers H → List (ℕ × H) → Handlers H
  register_all table [] = table
  register_all table ((irq, handler) ∷ calls) =
      register_all (intc_register_irq table irq handler).1 calls

  unfoldable pub latest : H → List (ℕ × H) → (irq : ℕ) → H
  latest before [] k = before
  latest before ((irq, handler) ∷ calls) k = latest (if k == irq then handler else before) calls k

  register_all_lem :
      (calls : List (ℕ × H)) (table : Handlers H) (k : ℕ)
      → register_all table calls k
        ≡ (if ltb k num_interrupts then latest (table k) calls k else table k)
  unfolding register_all latest intc_register_irq
  register_all_lem [] table k = ground arith
  register_all_lem ((irq, handler) ∷ calls) table k =
      ground (arith, register_all_lem calls (intc_register_irq table irq handler).1 k)

  -- After the initialisation, which ends once the controller reports that it has been reset, and any
  -- registrations, each of the 128 interrupts has the handler that was last registered for it, or else
  -- the default one; nothing is written behind the table, whatever numbers the registrations have.
  pub register_all-intc_init :
      {D : Type 0} (bus : Bus D) (fuel n : ℕ) (h : H) (table : Handlers H) (m : Machine D)
      (calls : List (ℕ × H))
      → n < fuel
      → EndsAt bus intc_base_addr intc_status_off
          (λ v. bit_and v 0x1 != 0x1)
          n
          (bus.store (add32 intc_base_addr intc_sysconfig_off) 0x2 m.dev)
      → (table' : Handlers H) × (m' : Machine D) × (intc_init bus fuel h table m
          ≡ some (table', m'))
        × ((k : ℕ)
            → register_all table' calls k
              ≡ (if ltb k num_interrupts then latest h calls k else table k))
  unfolding intc_init
  register_all-intc_init bus fuel n h table m calls lt reset =
      let m1 = record m { dev = bus.store (add32 intc_base_addr intc_sysconfig_off) 0x2 m.dev } in
      let table' = default_handlers h num_interrupts 0 table in
      (
        table',
        _,
        run-bind (wait_while bus fuel intc_base_addr intc_status_off (λ v. bit_and v 0x1 != 0x1)) _
            (wait_while_found bus intc_base_addr intc_status_off (λ v. bit_and v 0x1 != 0x1) n fuel
              m1 lt reset),
        λ k.
            register_all_lem calls table' k
            ∙ rw (default_handlers_lem h num_interrupts 0 table k) (ground arith),
      )
