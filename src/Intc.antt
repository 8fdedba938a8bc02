-- ===== src/Intc.antt =====
-- os/interrupts/interrupt.c and interrupt.h: the interrupt controller and its table of handlers, on any
-- device in its place. A handler is a value of a type that the users of the table choose. The barrier
-- `dsb` and the control of the processor's own mask are assembly.
pub mod Handler
pub mod Masks
pub mod Table
mod Tests
use kernel_team_project.Base.{
  ℕ, zero, suc, ◌+◌, ◌-◌, ◌*◌, ◌/◌, ◌%◌, Bool, true, false, ◌==◌, ◌!=◌, leb, if◌then◌else◌, List,
  [], ◌∷◌, bit_and, ◌<<◌, update, add32, u32_mod,
}
use kernel_team_project.Regs.{
  Bus, Io, pure, ◌>>=◌, ◌>>◌, skip, uart_puts, uart_printf, reg32_write, reg32_write_masked,
  reg32_read, read_at, wait_while,
}

abbrev pub intc_base_addr : ℕ
intc_base_addr = 0x48200000

abbrev pub num_interrupts : ℕ
num_interrupts = 128

abbrev pub intc_sir_irq_off : ℕ
intc_sir_irq_off = 0x40

abbrev pub intc_sysconfig_off : ℕ
intc_sysconfig_off = 0x10

abbrev pub intc_status_off : ℕ
intc_status_off = 0x14

abbrev pub intc_idle_off : ℕ
intc_idle_off = 0x50

abbrev pub intc_threshold_off : ℕ
intc_threshold_off = 0x68

-- INTC_IRQ_REG_BIT and INTC_IRQ_REG_NUM
abbrev pub irq_reg_bit : (irq_num : ℕ) → ℕ
irq_reg_bit irq_num = 1 << (irq_num % 32)

abbrev pub irq_reg_num : (irq_num : ℕ) → ℕ
irq_reg_num irq_num = irq_num / 32

-- INTC_ILEn_OFF, INTC_MIRn_CLR_OFF and INTC_MIRn_SET_OFF
abbrev pub intc_ile_off : (irq_num : ℕ) → ℕ
intc_ile_off irq_num = 0x100 + irq_num * 4

abbrev pub intc_mir_clr_off : (irq_num : ℕ) → ℕ
intc_mir_clr_off irq_num = 0x88 + 8 * irq_reg_num irq_num * 4

abbrev pub intc_mir_set_off : (irq_num : ℕ) → ℕ
intc_mir_set_off irq_num = 0x8c + 8 * irq_reg_num irq_num * 4

-- `intc_vector_table`
abbrev pub Handlers : Type 0 → Type 0
Handlers H = ℕ → H

module _ {H : Type 0} where
  -- The loop of `INTC_init`, for the rounds that are left from `i` on.
  unfoldable pub default_handlers : (default_handler : H) → (rounds i : ℕ) → Handlers H → Handlers H
  default_handlers default_handler zero i table = table
  default_handlers default_handler (suc rounds) i table =
      default_handlers default_handler rounds (i + 1) (update table i default_handler)

  -- The result, and the table after the call.
  unfoldable pub intc_register_irq : Handlers H → (int_num : ℕ) → H → Bool × Handlers H
  intc_register_irq table int_num handler =
      if leb num_interrupts int_num then (false, table) else (true, update table int_num handler)

module _ {D : Type 0} (bus : Bus D) where
  unfoldable pub intc_init :
      {H : Type 0} (fuel : ℕ) (default_handler : H) → Handlers H → Io D (Handlers H)
  intc_init fuel default_handler table = do
    reg32_write bus intc_base_addr intc_sysconfig_off 0x2
    wait_while bus fuel intc_base_addr intc_status_off (λ v. bit_and v 0x1 != 0x1)
    reg32_write_masked bus intc_base_addr intc_sysconfig_off 0x1 0x1
    reg32_write_masked bus intc_base_addr intc_idle_off 0x3 0x01
    reg32_write bus intc_base_addr intc_threshold_off 0xFF
    pure (default_handlers default_handler num_interrupts 0 table)

  unfoldable pub intc_enable_irq : (int_num : ℕ) → Io D Bool
  intc_enable_irq int_num = if leb num_interrupts int_num then pure false else (do
    reg32_write_masked bus intc_base_addr (intc_mir_clr_off int_num) (irq_reg_bit int_num)
        (irq_reg_bit int_num)
    pure true)

  unfoldable pub intc_disable_irq : (int_num : ℕ) → Io D Bool
  intc_disable_irq int_num = if leb num_interrupts int_num then pure false else (do
    reg32_write_masked bus intc_base_addr (intc_mir_set_off int_num) (irq_reg_bit int_num)
        (irq_reg_bit int_num)
    pure true)

  unfoldable pub intc_set_priority : (int_num priority : ℕ) → Io D (Unit {0})
  intc_set_priority int_num priority =
      reg32_write bus intc_base_addr (intc_ile_off int_num)
        (bit_and ((priority << 2) % u32_mod) 0b111111100)

  unfoldable pub intc_active_irq_num : Io D ℕ
  intc_active_irq_num = do v ← reg32_read bus intc_base_addr intc_sir_irq_off; pure (bit_and v 0x7F)

  unfoldable pub get_active_irq : Io D ℕ
  get_active_irq = do v ← read_at bus (add32 0x48200000 0x40); pure (bit_and v 0x7F)

  -- A loop over stack words, for the rounds that are left from `i` on.
  unfoldable pub print_words : (words : ℕ → ℕ) (rounds i : ℕ) → Io D (Unit {0})
  print_words words zero i = skip
  print_words words (suc rounds) i = do
    uart_printf "  word: 0x%x\n" (words i ∷ [])
    print_words words rounds (i + 1)

  -- `irq_handler`: the count of interrupts before and after it, the words on the two stacks, and the
  -- link register of the user mode.
  unfoldable pub irq_handler : (irq_count : ℕ) (irq_sp user_sp : ℕ → ℕ) (user_lr : ℕ) → Io D ℕ
  unfolding get_active_irq uart_printf uart_puts print_words
  irq_handler irq_count irq_sp user_sp user_lr = do
    let irq_count' = irq_count + 1
    irq_num ← get_active_irq
    if irq_count' == 2
        then (do
          uart_printf ">>> IRQ fired: IRQ%d <<<\n" (irq_num ∷ [])
          uart_puts "Top 10 IRQ stack words:\n"
          print_words irq_sp 10 0
          uart_puts "Top 10 USER stack words:\n"
          print_words user_sp 10 0
          uart_printf "User LR = 0x%x\n" (user_lr ∷ []))
        else skip
    pure irq_count'

  -- The loop of `setup_vector_table`: the words of the table go to the address, for the words that are
  -- left from `i` on.
  unfoldable pub setup_vector_table : (vector_table : List ℕ) (i : ℕ) → Io D (Unit {0})
  setup_vector_table [] i = skip
  setup_vector_table (word ∷ words) i = do
    reg32_write bus 0x4030FC00 (i * 4) word
    setup_vector_table words (i + 1)
