-- ===== src/Timer.antt =====
-- os/drivers/timer.c and timer.h: the timers 2 to 7, on any device in their place, with the table of
-- interrupt handlers that they register themselves in. The waits have no bound in the source and take
-- fuel.
pub mod Ticks
pub mod Wiring
mod Tests
use kernel_team_project.Base.{
  ℕ, zero, suc, ◌*◌, Bool, true, false, ◌||◌, ◌==◌, ◌!=◌, ltb, if◌then◌else◌, List, [], ◌∷◌, get_or,
  Option, none, some, bit_and, ◌<<◌, update, sub32, mul32,
}
use kernel_team_project.Regs.{
  Bus, Io, pure, ◌>>=◌, ◌>>◌, skip, reg32_write, reg32_write_masked, reg32_read, wait_while,
}
use kernel_team_project.Clock.{cm_per_base, cm_dpll_base}
use kernel_team_project.Intc.Handler.{Handler, uart0_irq, uart1_irq, handle_timer_n_irq, other_irq}
use kernel_team_project.Intc.{Handlers, intc_register_irq, intc_enable_irq, intc_disable_irq}

abbrev pub timer_max_count : ℕ
timer_max_count = 0xFFFFFFFF

-- The registers, by their offsets.
abbrev pub tiocp_cfg_off : ℕ
tiocp_cfg_off = 0x10

abbrev pub irqstatus_off : ℕ
irqstatus_off = 0x28

abbrev pub irqenable_set_off : ℕ
irqenable_set_off = 0x2C

abbrev pub tclr_off : ℕ
tclr_off = 0x38

abbrev pub tcrr_off : ℕ
tcrr_off = 0x3C

abbrev pub tldr_off : ℕ
tldr_off = 0x40

abbrev pub twps_off : ℕ
twps_off = 0x48

-- `(uint32_t) -1`
abbrev minus_1 : ℕ
minus_1 = 0xFFFFFFFF

-- The four tables; 0 stands for what is behind their ends.
abbrev pub timer_base : ℕ → ℕ
timer_base i =
    get_or
      (minus_1 ∷ minus_1 ∷ 0x48040000 ∷ 0x48042000 ∷ 0x48044000 ∷ 0x48046000 ∷ 0x48048000
        ∷ 0x4804A000 ∷ [])
      i 0

abbrev pub timer_module_clk_off : ℕ → ℕ
timer_module_clk_off i =
    get_or (minus_1 ∷ minus_1 ∷ 0x80 ∷ 0x84 ∷ 0x88 ∷ 0xEC ∷ 0xF0 ∷ 0x7C ∷ []) i 0

abbrev pub timer_pll_clksel_off : ℕ → ℕ
timer_pll_clksel_off i =
    get_or (minus_1 ∷ minus_1 ∷ 0x08 ∷ 0x0C ∷ 0x10 ∷ 0x18 ∷ 0x1C ∷ 0x04 ∷ []) i 0

abbrev pub timer_irq_num : ℕ → ℕ
timer_irq_num i = get_or (130 ∷ 130 ∷ 68 ∷ 69 ∷ 92 ∷ 93 ∷ 94 ∷ 95 ∷ []) i 0

-- `timer_tick_funcs`, where `none` is NULL, and the table of handlers.
pub record Timers (D : Type 0) : Type 0 where
  pub timer_tick_funcs : ℕ → Option (Io D (Unit {0}))
  pub handlers : Handlers Handler

abbrev pub is_invalid : (timer_index : ℕ) → Bool
is_invalid timer_index = ltb timer_index 2 || ltb 7 timer_index

-- The value that a timer counts up from.
abbrev pub reload : (timer_tick_ms : ℕ) → ℕ
reload timer_tick_ms = sub32 timer_max_count (mul32 timer_tick_ms 32)

-- The end of `timer_init`, in memory.
abbrev pub wire : {D : Type 0} → Timers D → (timer_index : ℕ) → Io D (Unit {0}) → Timers D
wire t timer_index timer_tick_func = record {
  timer_tick_funcs = update t.timer_tick_funcs timer_index (some timer_tick_func);
  handlers =
      (intc_register_irq t.handlers (timer_irq_num timer_index) (handle_timer_n_irq timer_index)).1;
}

module _ {D : Type 0} (bus : Bus D) (fuel : ℕ) where
  -- TIMER_REG_WRITE_WAIT_DONE
  abbrev pub write_wait_done : (timer_index : ℕ) → Io D (Unit {0})
  write_wait_done timer_index =
      wait_while bus fuel (timer_base timer_index) twps_off
        (λ v. bit_and (bit_and v 0x1F) 0x1F != 0)

  -- The waits of `timer_init` for the clock select and for the clock.
  unfoldable pub enable_clock : (timer_index : ℕ) → Io D (Unit {0})
  enable_clock timer_index = do
    reg32_write bus cm_dpll_base (timer_pll_clksel_off timer_index) 0x2
    wait_while bus fuel cm_dpll_base (timer_pll_clksel_off timer_index) (λ v. bit_and v 0x3 != 0x2)
    reg32_write_masked bus cm_per_base (timer_module_clk_off timer_index) 0x3 0x2
    wait_while bus fuel cm_per_base (timer_module_clk_off timer_index)
        (λ v. bit_and (bit_and v (0x3 << 16)) 0x3 != 0)

  -- `timer_init` from the clocks to the last register.
  unfoldable pub set_up : (timer_index timer_tick_ms : ℕ) → Io D (Unit {0})
  set_up timer_index timer_tick_ms = do
    enable_clock timer_index
    reg32_write_masked bus (timer_base timer_index) tiocp_cfg_off 0x1 0x1
    wait_while bus fuel (timer_base timer_index) tiocp_cfg_off
        (λ v. bit_and (bit_and v 0x1) 0x1 != 0)
    reg32_write_masked bus (timer_base timer_index) tclr_off 0x1 0x0
    write_wait_done timer_index
    reg32_write_masked bus (timer_base timer_index) tclr_off 0x7FFE (0x1 << 1)
    write_wait_done timer_index
    reg32_write bus (timer_base timer_index) tldr_off (reload timer_tick_ms)
    reg32_write bus (timer_base timer_index) tcrr_off (reload timer_tick_ms)
    write_wait_done timer_index
    reg32_write bus (timer_base timer_index) irqenable_set_off 0x2
    write_wait_done timer_index

  unfoldable pub timer_init :
      Timers D
      → (timer_index timer_tick_ms : ℕ) → (timer_tick_func : Io D (Unit {0}))
      → Io D (Bool × Timers D)
  timer_init t timer_index timer_tick_ms timer_tick_func =
      if is_invalid timer_index
      then pure (false, t)
      else (do set_up timer_index timer_tick_ms; pure (true, wire t timer_index timer_tick_func))

  unfoldable pub timer_start : (timer_index : ℕ) → Io D Bool
  timer_start timer_index = if is_invalid timer_index then pure false else (do
    reg32_write_masked bus (timer_base timer_index) tclr_off 0x1 0x1
    write_wait_done timer_index
    enabled ← intc_enable_irq bus (timer_irq_num timer_index)
    pure true)

  unfoldable pub timer_stop : (timer_index : ℕ) → Io D Bool
  timer_stop timer_index = if is_invalid timer_index then pure false else (do
    reg32_write_masked bus (timer_base timer_index) tclr_off 0x1 0x0
    write_wait_done timer_index
    disabled ← intc_disable_irq bus (timer_irq_num timer_index)
    pure true)

  unfoldable pub timer_value : (timer_index : ℕ) → Io D ℕ
  timer_value timer_index =
      if is_invalid timer_index then pure 0 else reg32_read bus (timer_base timer_index) tcrr_off

  -- `if (timer_tick_funcs[timer_index] != NULL) timer_tick_funcs[timer_index]();`
  abbrev pub call_tick : Option (Io D (Unit {0})) → Io D (Unit {0})
  call_tick none = skip
  call_tick (some f) = f

  -- The end of `handle_timer_irq`.
  unfoldable pub clear_interrupt : (timer_index : ℕ) → Io D (Unit {0})
  clear_interrupt timer_index = do
    reg32_write_masked bus (timer_base timer_index) irqstatus_off 0x1 0x1
    write_wait_done timer_index

  unfoldable pub handle_timer_irq : Timers D → (timer_index : ℕ) → Io D (Unit {0})
  handle_timer_irq t timer_index = do
    call_tick (t.timer_tick_funcs timer_index)
    clear_interrupt timer_index

  -- The call of a handler of the table; `others` says what those that are not of a timer do.
  unfoldable pub call_handler :
      Timers D → (others : Handler → Io D (Unit {0})) → Handler → Io D (Unit {0})
  unfolding handle_timer_irq
  call_handler t others uart0_irq = others uart0_irq
  call_handler t others uart1_irq = others uart1_irq
  call_handler t others other_irq = others other_irq
  call_handler t others (handle_timer_n_irq timer_index) = handle_timer_irq t timer_index
