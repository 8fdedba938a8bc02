-- ===== src/Kmain/Running.antt =====
-- `kmain` of os/main.c reaches its first process.
use Prim.Native.String.{String}
use kernel_team_project.Base.{
  ℕ, ◌≡◌, ◌∙◌, refl, sym, ap, ap₂, Option, none, some, List, [], ◌∷◌, bit_and, ◌==◌, ◌!=◌, ◌<<◌,
  update,
}
use kernel_team_project.Clock.{cm_per_base, cm_per_uart1_clkctrl}
use kernel_team_project.Regs.{Bus, Io, ◌>>◌}
use kernel_team_project.Regs.Ends.{
  Ends, EndsInTime, wait_while-Ends, then-Ends, Returns, bind-Returns, unit-Returns,
}
use kernel_team_project.Intc.Handler.{uart0_irq, uart1_irq, handle_timer_n_irq, other_irq}
use kernel_team_project.Intc.{
  default_handlers, num_interrupts, intc_register_irq, intc_set_priority, intc_enable_irq,
}
use kernel_team_project.Ring.{char_init}
use kernel_team_project.Timer.{wire}
use kernel_team_project.Timer.Wiring.{InTime}
use kernel_team_project.Uart.Port.{uart1_base, syss_off, uart_port_init}
use kernel_team_project.Uart.Init.{Ports, connect_port1, uart_interrupt_init, uart_init}
use kernel_team_project.Uart.Printf.{Arg}
use kernel_team_project.Uart.Print.{port_printf, port_log, port_printf-Ends, port_log-Ends}
use kernel_team_project.Frames.{init_frame_allocator}
use kernel_team_project.Sched.{EntryPoints, Scheduler}
use kernel_team_project.Sched.Turns.{ready_list, scheduler_run_refines}
use kernel_team_project.Sched.Queue as Spec
use kernel_team_project.Sched.Init.{init_processes-IsStarted, init_processes-current}
use kernel_team_project.Sched.Start.{timer2, scheduler_init, scheduler_init-Returns}
use kernel_team_project.Boot.Starting.{
  IsPrompt, with_port0, uart_init-with_port0, uart_port_init-Ends, system_interrupt_init-Returns,
}
use kernel_team_project.Kmain.{
  Kernel, timers, with_timers, kmain, from_interrupts, from_port0, from_port1, from_processes,
  first_process,
}

abbrev current_of : Option Scheduler → Option ℕ
current_of none = none
current_of (some s) = s.current_process

-- The ports when the second one has been set up.
abbrev pub with_port1 : Ports → Ports
with_port1 p = record {
  handlers = update p.handlers 73 uart1_irq;
  uart = record p.uart { rx1 = char_init p.uart.rx1 };
}

module _ {D : Type 0} (bus : Bus D) (fuel : ℕ) where
  -- The two waits for the second port that have no bound.
  pub record HasPort1 : Type 0 where
    pub clock :
        EndsInTime bus fuel cm_per_base cm_per_uart1_clkctrl (λ v. bit_and v (0x3 << 16) != 0)
    pub reset : EndsInTime bus fuel uart1_base syss_off (λ v. bit_and v 0x1 == 0)

  module _ (prompt : IsPrompt bus fuel) (port1 : HasPort1) where
    printed :
        {A : Type 0} (fmt : String) (args : List Arg) {k : Io D A} {a : A}
        → Returns k a
        → Returns (port_printf bus fuel fmt args >> k) a
    printed fmt args {k} h =
        bind-Returns (port_printf bus fuel fmt args) (λ _. k)
          (unit-Returns (port_printf bus fuel fmt args)
            (port_printf-Ends bus fuel prompt.sender fmt args))
          h

    logged :
        {A : Type 0} (level : ℕ) (fmt : String) {k : Io D A} {a : A}
        → Returns k a
        → Returns (port_log bus fuel level fmt [] >> k) a
    logged level fmt {k} h =
        bind-Returns (port_log bus fuel level fmt []) (λ _. k)
          (unit-Returns (port_log bus fuel level fmt [])
            (port_log-Ends bus fuel prompt.sender level fmt []))
          h

    connect_port1-Ends : Ends (connect_port1 bus fuel)
    unfolding connect_port1
    connect_port1-Ends m =
        then-Ends (wait_while-Ends bus fuel _ _ _ port1.clock)
          (λ m. then-Ends (wait_while-Ends bus fuel _ _ _ prompt.wakeup_clock) (λ m. (_, refl)) _) _

    uart_init-with_port1 :
        (p : Ports) → Returns (uart_init bus fuel p 1 115200 1 0 0 0 8) (with_port1 p)
    unfolding uart_init uart_interrupt_init intc_register_irq intc_set_priority intc_enable_irq
    uart_init-with_port1 p =
        bind-Returns _ _ (unit-Returns (connect_port1 bus fuel) connect_port1-Ends) (
          bind-Returns _ _
            (unit-Returns (uart_port_init bus fuel uart1_base 115200 1 0 0 0 8)
              (uart_port_init-Ends bus fuel uart1_base port1.reset 115200 1 0 0 0 8))
            (λ m. (_, refl)))

    module _ (address : ℕ → ℕ) (scheduler_tick : Io D (Unit {0})) (timer : InTime bus fuel timer2)
        (entry : EntryPoints) where
      -- The memory when the timer has been set up and the scheduler is `s`.
      abbrev with_scheduler : Kernel D → Scheduler → Kernel D
      with_scheduler k s = with_timers k (wire (timers k) timer2 scheduler_tick) s

      -- The first of the ready processes runs.
      processes_run :
          (k : Kernel D)
          → k.sched.current_process ≡ none
          → (s : Scheduler) × Returns
              (from_processes bus fuel address scheduler_tick entry k)
              (with_scheduler k s)
            × (s.current_process ≡ some 1)
            × (ready_list s ≡ 2 ∷ 3 ∷ [])
      unfolding from_processes first_process Spec.schedule Spec.pick Spec.waiting
      processes_run k none_runs =
          let (s1, e, started) = init_processes-IsStarted address entry k.sched in
          let (s2, e2, kept) = init_processes-current address entry k.sched in
          let same : current_of (some s1) ≡ current_of (some s2) = ap current_of (sym e ∙ e2) in
          let idle : s1.current_process ≡ none = same ∙ kept ∙ none_runs in
          let (s, switched) = scheduler_run_refines s1 0 started.can_run in
          let next : Spec.schedule 0 s1.current_process (ready_list s1) ≡ (1, 2 ∷ 3 ∷ []) =
            ap₂ (Spec.schedule 0) idle started.ready in
          (
            s,
            bind-Returns (scheduler_init bus fuel address scheduler_tick (timers k) entry k.sched)
                (λ (t, s). first_process bus fuel address scheduler_tick (with_timers k t s))
                (scheduler_init-Returns bus fuel address scheduler_tick prompt.sender (timers k)
                  entry k.sched s1 timer e)
                (rw switched.runs (λ m. (m, refl))),
            switched.current ∙ ap (λ p. some p.0) next,
            switched.list ∙ ap (λ p. p.1) next,
          )

      -- The memory with the frames and both ports set up.
      abbrev after_set_up : (mapped_sections : ℕ) → Kernel D → Kernel D
      after_set_up mapped_sections k = record k {
        frames = init_frame_allocator k.frames mapped_sections;
        ports = with_port1 (
            with_port0 (record (k.ports) {
              handlers = default_handlers other_irq num_interrupts 0 k.ports.handlers;
            }));
      }

      reaches_processes :
          (vector_table : List ℕ) (mapped_sections : ℕ) (k : Kernel D) {k' : Kernel D}
          → Returns
              (from_processes bus fuel address scheduler_tick entry
                (after_set_up mapped_sections k))
              k'
          → Returns (kmain bus fuel address scheduler_tick vector_table entry mapped_sections k) k'
      unfolding kmain from_interrupts from_port0 from_port1
      reaches_processes vector_table mapped_sections k h =
          let p : Ports = record (k.ports) {
            handlers = default_handlers other_irq num_interrupts 0 k.ports.handlers;
          } in
          printed _ _ (
            printed _ _ (
              bind-Returns _ _
                (system_interrupt_init-Returns bus fuel prompt vector_table other_irq
                  k.ports.handlers)
                (bind-Returns _ _ (uart_init-with_port0 bus fuel prompt p) (
                  logged _ _
                    (printed _ _ (bind-Returns _ _ (uart_init-with_port1 (with_port0 p)) h))))))

      -- Where no process has run yet, and the device ends the waits without a bound from each of its
      -- states, `kmain` gets to the first process, whatever else the memory held: process 1 runs, 2 and 3 are
      -- ready, the interrupts 72 and 73 lead to the handlers of the two serial ports and 68 to that of
      -- timer 2, which calls the tick function of the scheduler, and the frames are those of the
      -- allocator.
      pub kmain_lem :
          (vector_table : List ℕ) (mapped_sections : ℕ) (k : Kernel D)
          → k.sched.current_process ≡ none
          → (k' : Kernel D) × Returns
              (kmain bus fuel address scheduler_tick vector_table entry mapped_sections k)
              k'
            × (k'.sched.current_process ≡ some 1)
            × (ready_list k'.sched ≡ 2 ∷ 3 ∷ [])
            × (k'.ports.handlers 72 ≡ uart0_irq)
            × (k'.ports.handlers 73 ≡ uart1_irq)
            × (k'.ports.handlers 68 ≡ handle_timer_n_irq 2)
            × (k'.timer_tick_funcs 2 ≡ some scheduler_tick)
            × (k'.frames ≡ init_frame_allocator k.frames mapped_sections)
      unfolding intc_register_irq
      kmain_lem vector_table mapped_sections k none_runs =
          let (s, run, current, ready) = processes_run (after_set_up mapped_sections k) none_runs in
          (
            with_scheduler (after_set_up mapped_sections k) s,
            reaches_processes vector_table mapped_sections k run,
            current,
            ready,
            refl,
            refl,
            refl,
            refl,
            refl,
          )
