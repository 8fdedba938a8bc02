-- ===== src/Kmain.antt =====
-- `kmain` of os/main.c, on any device, up to the first process. The checks of the processor's mode and what
-- `scheduler_run` prints are left out. `scheduler_tick`, which the timer calls, is a parameter.
pub mod Running
mod Tests
use kernel_team_project.Base.{ℕ, Option, List, [], ◌∷◌}
use kernel_team_project.Regs.{Bus, Io, pure, ◌>>=◌, ◌>>◌, log_level_info}
use kernel_team_project.Intc.Handler.{Handler, other_irq}
use kernel_team_project.Intc.{Handlers}
use kernel_team_project.Frames.{Frames, init_frame_allocator}
use kernel_team_project.Timer.{Timers}
use kernel_team_project.Uart.Init.{Ports, uart_init}
use kernel_team_project.Uart.Printf.{num}
use kernel_team_project.Uart.Print.{port_printf, port_log}
use kernel_team_project.Sched.{EntryPoints, Scheduler, scheduler_run}
use kernel_team_project.Sched.Start.{in_memory, scheduler_init}
use kernel_team_project.Boot.Devices.{system_interrupt_init}

-- The memory of the kernel. The table of handlers is that of `ports`.
pub record Kernel (D : Type 0) : Type 0 where
  pub frames : Frames
  pub ports : Ports
  pub timer_tick_funcs : ℕ → Option (Io D (Unit {0}))
  pub sched : Scheduler

module _ {D : Type 0} where
  -- The tables of the timers in the memory of the kernel, and that memory with them changed.
  abbrev pub timers : Kernel D → Timers D
  timers k = record { timer_tick_funcs = k.timer_tick_funcs; handlers = k.ports.handlers }

  abbrev pub with_timers : Kernel D → Timers D → Scheduler → Kernel D
  with_timers k t s = record k {
    ports = record (k.ports) { handlers = t.handlers };
    timer_tick_funcs = t.timer_tick_funcs;
    sched = s;
  }

module _ {D : Type 0} (bus : Bus D) (fuel : ℕ) (address : ℕ → ℕ)
    (scheduler_tick : Io D (Unit {0})) where
  -- The first process.
  unfoldable pub first_process : Kernel D → Io D (Kernel D)
  first_process k = do
    running ← in_memory (scheduler_run k.sched)
    pure (record k { sched = running })

  -- From the processes on.
  unfoldable pub from_processes : EntryPoints → Kernel D → Io D (Kernel D)
  from_processes entry k = do
    (t, s) ← scheduler_init bus fuel address scheduler_tick (timers k) entry k.sched
    first_process (with_timers k t s)

  -- From the second serial port on.
  unfoldable pub from_port1 : EntryPoints → Kernel D → Io D (Kernel D)
  from_port1 entry k = do
    port_log bus fuel log_level_info "kernel interrupts OK\n" []
    port_printf bus fuel "UART1 init\n" []
    ports ← uart_init bus fuel k.ports 1 115200 1 0 0 0 8
    from_processes entry (record k { ports = ports })

  -- From the first serial port on.
  unfoldable pub from_port0 : EntryPoints → Kernel D → Handlers Handler → Io D (Kernel D)
  from_port0 entry k handlers = do
    ports ← uart_init bus fuel (record (k.ports) { handlers = handlers }) 0 115200 1 0 0 0 8
    from_port1 entry (record k { ports = ports })

  -- From the interrupts on.
  unfoldable pub from_interrupts :
      (vector_table : List ℕ) → EntryPoints → Kernel D → Io D (Kernel D)
  from_interrupts vector_table entry k = do
    handlers ← system_interrupt_init bus fuel vector_table other_irq k.ports.handlers
    from_port0 entry k handlers

  unfoldable pub kmain :
      (vector_table : List ℕ) → EntryPoints → (mapped_sections : ℕ) → Kernel D → Io D (Kernel D)
  kmain vector_table entry mapped_sections k = do
    port_printf bus fuel "Hello from kernel! We used %d sections for kernel\n"
        (num mapped_sections ∷ [])
    let k : Kernel D = record k { frames = init_frame_allocator k.frames mapped_sections }
    port_printf bus fuel "Frame allocator initialized\n" []
    from_interrupts vector_table entry k
