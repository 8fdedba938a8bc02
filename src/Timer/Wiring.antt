-- ===== src/Timer/Wiring.antt =====
-- How os/drivers/timer.c connects a timer to the function that its user gave.
use kernel_team_project.Base.{
  ℕ, ◌≤◌, ◌<◌, ◌≡◌, ◌≢◌, refl, ◌∙◌, Bool, true, false, ◌||◌, ◌==◌, ◌!=◌, ltb, some, arith,
  all_below, all_below-lt, update, lt→not-leb, eq→==, ne→not-==, ap, bit_and, ◌<<◌,
}
use kernel_team_project.Clock.{cm_per_base, cm_dpll_base}
use kernel_team_project.Regs.{Bus, Io, ◌>>◌, pure}
use kernel_team_project.Regs.Ends.{
  Ends, EndsInTime, wait_while-Ends, then-Ends, Returns, bind-Returns, unit-Returns,
}
use kernel_team_project.Intc.Handler.{Handler, handle_timer_n_irq}
use kernel_team_project.Intc.{intc_register_irq, num_interrupts}
use kernel_team_project.Timer.{
  Timers, timer_irq_num, is_invalid, wire, set_up, enable_clock, timer_pll_clksel_off,
  timer_module_clk_off, timer_base, tiocp_cfg_off, twps_off, timer_init, handle_timer_irq,
  call_handler, clear_interrupt,
}

-- The interrupts of the timers are in the table, and no two timers share one.
irq_table : all_below 8 (λ i. ltb i 2 || ltb (timer_irq_num i) num_interrupts) ≡ true
irq_table = refl

abbrev differ : (i j : ℕ) → Bool
differ i j = ltb i 2 || (ltb j 2 || (i == j || timer_irq_num i != timer_irq_num j))

differ_table : all_below 8 (λ i. all_below 8 (differ i)) ≡ true
differ_table = refl

abbrev pub IsTimer : ℕ → Type 0
IsTimer i = (2 ≤ i) × (i ≤ 7)

irq_small : (i : ℕ) → IsTimer i → timer_irq_num i < num_interrupts
irq_small i h =
    let row =
      all_below-lt 8 (λ i. ltb i 2 || ltb (timer_irq_num i) num_interrupts) i irq_table
        (omega arith) in
    ground (arith, row)

irq_differs : (i j : ℕ) → IsTimer i → IsTimer j → i ≢ j → timer_irq_num i ≢ timer_irq_num j
irq_differs i j hi hj ne =
    let row = all_below-lt 8 (λ i. all_below 8 (differ i)) i differ_table (omega arith) in
    let cell = all_below-lt 8 (differ i) j row (omega arith) in ground (arith, cell)

module _ {D : Type 0} where
  -- Timer `i` calls `f`: its interrupt has the handler of the timer, and its tick function is `f`.
  pub record IsWired (t : Timers D) (i : ℕ) (f : Io D (Unit {0})) : Type 1 where
    pub tick : t.timer_tick_funcs i ≡ some f
    pub handler : t.handlers (timer_irq_num i) ≡ handle_timer_n_irq i

  pub registers :
      (t : Timers D) (i : ℕ) (f : Io D (Unit {0}))
      → IsTimer i
      → (wire t i f).handlers ≡ update t.handlers (timer_irq_num i) (handle_timer_n_irq i)
  unfolding intc_register_irq
  registers t i f h = rw (lt→not-leb num_interrupts (timer_irq_num i) (irq_small i h))

  pub wire-IsWired :
      (t : Timers D) (i : ℕ) (f : Io D (Unit {0})) → IsTimer i → IsWired (wire t i f) i f
  wire-IsWired t i f h =
      let self = λ (k : ℕ). eq→== k k refl in
      record {
        tick = rw (self i);
        handler = ap (λ l. l (timer_irq_num i)) (registers t i f h) ∙ rw (self (timer_irq_num i));
      }

  wire-IsWired_other :
      (t : Timers D) (i j : ℕ) (f g : Io D (Unit {0}))
      → IsTimer i
      → IsTimer j
      → j ≢ i
      → IsWired t j g
      → IsWired (wire t i f) j g
  wire-IsWired_other t i j f g hi hj ne w = record {
    tick = rw (ne→not-== j i ne) w.tick;
    handler =
        ap (λ l. l (timer_irq_num j)) (registers t i f hi)
        ∙ rw (ne→not-== _ _ (irq_differs j i hj hi ne)) w.handler;
  }

module _ {D : Type 0} (bus : Bus D) (fuel : ℕ) where
  -- The waits of `timer_init` for a timer end: for the selection of its clock, for the clock, for its
  -- reset, and after each write to its registers.
  pub record InTime (i : ℕ) : Type 0 where
    pub clock_select :
        EndsInTime bus fuel cm_dpll_base (timer_pll_clksel_off i) (λ v. bit_and v 0x3 != 0x2)
    pub clock :
        EndsInTime bus fuel cm_per_base
          (timer_module_clk_off i)
          (λ v. bit_and (bit_and v (0x3 << 16)) 0x3 != 0)
    pub reset :
        EndsInTime bus fuel (timer_base i) tiocp_cfg_off (λ v. bit_and (bit_and v 0x1) 0x1 != 0)
    pub writes :
        EndsInTime bus fuel (timer_base i) twps_off (λ v. bit_and (bit_and v 0x1F) 0x1F != 0)

  enable_clock-Ends : (i : ℕ) → InTime i → Ends (enable_clock bus fuel i)
  unfolding enable_clock
  enable_clock-Ends i h m =
      then-Ends (wait_while-Ends bus fuel _ _ _ h.clock_select)
        (λ m. wait_while-Ends bus fuel _ _ _ h.clock _) _

  set_up-Ends : (i ms : ℕ) → InTime i → Ends (set_up bus fuel i ms)
  unfolding set_up
  set_up-Ends i ms h =
      let written = wait_while-Ends bus fuel _ _ _ h.writes in
      then-Ends (enable_clock-Ends i h) (λ m.
        then-Ends (wait_while-Ends bus fuel _ _ _ h.reset)
          (λ m.
            then-Ends written (λ m. then-Ends written (λ m. then-Ends written (λ m. written _) _) _)
              _)
          _)

  pub timer_init-Returns :
      (t : Timers D) (i ms : ℕ) (f : Io D (Unit {0}))
      → IsTimer i
      → InTime i
      → Returns (timer_init bus fuel t i ms f) (true, wire t i f)
  unfolding timer_init
  timer_init-Returns t i ms f hi h =
      let valid : is_invalid i ≡ false = ground arith in
      rw valid (
        bind-Returns (set_up bus fuel i ms) (λ _. pure (true, wire t i f))
          (unit-Returns (set_up bus fuel i ms) (set_up-Ends i ms h)) (λ m. (m, refl)))

  -- A call of `timer_init` with a valid index whose waits end returns, reports success, and leaves its
  -- timer calling the function that was given, while another timer that called a function before still
  -- does.
  pub timer_init-IsWired :
      (t : Timers D) (i j ms : ℕ) (f g : Io D (Unit {0}))
      → IsTimer i
      → IsTimer j
      → j ≢ i
      → IsWired t j g
      → InTime i
      → (t' : Timers D) × Returns (timer_init bus fuel t i ms f) (true, t')
        × IsWired t' i f
        × IsWired t' j g
  unfolding timer_init
  timer_init-IsWired t i j ms f g hi hj ne w h = (
    wire t i f,
    timer_init-Returns t i ms f hi h,
    wire-IsWired t i f hi,
    wire-IsWired_other t i j f g hi hj ne w,
  )

  -- The interrupt of a wired timer calls its function, and then clears the interrupt.
  pub call_handler-IsWired :
      (t : Timers D) (others : Handler → Io D (Unit {0})) (i : ℕ) (f : Io D (Unit {0}))
      → IsWired t i f
      → call_handler bus fuel t others (t.handlers (timer_irq_num i))
        ≡ (f >> clear_interrupt bus fuel i)
  unfolding call_handler handle_timer_irq
  call_handler-IsWired t others i f w = rw (w.handler, w.tick)
