-- ===== src/Kmain/Tests.antt =====
-- The theorem about os/main.c at a concrete start.
use kernel_team_project.Base.{
  ℕ, leb, ltb, ◌&&◌, ◌==◌, if◌then◌else◌, ◌+◌, ◌*◌, ◌≡◌, refl, none, some, [], ◌∷◌, arith,
}
use kernel_team_project.Regs.{Bus, Io, skip}
use kernel_team_project.Regs.Ends.{Returns}
use kernel_team_project.Timer.Wiring.{InTime}
use kernel_team_project.Ring.{CharBuffer, GenericBuffer}
use kernel_team_project.Intc.Handler.{uart0_irq, uart1_irq, handle_timer_n_irq, other_irq}
use kernel_team_project.Frames.{init_frame_allocator}
use kernel_team_project.Sched.{EntryPoints, Process, Scheduler, undefined}
use kernel_team_project.Sched.Turns.{ready_list}
use kernel_team_project.Boot.Starting.{IsPrompt}
use kernel_team_project.Kmain.{Kernel, kmain}
use kernel_team_project.Kmain.Running.{HasPort1, kmain_lem}

-- A device on which all waits end at once: the clock of timer 2 is selected, no write to the timer is under
-- way, and all other registers read as 0x21.
abbrev ready_bus : Bus (Unit {0})
ready_bus = record {
  load = λ addr d. (
    if addr == 0x44E00508
        then 2
        else if leb 0x48040000 addr && ltb addr 0x48041000
        then 0
        else 0x21,
    d,
  );
  store = λ addr value d. d;
}

ready-IsPrompt : IsPrompt ready_bus 1
ready-IsPrompt = record {
  gpio_clock = λ d. (0, omega arith, record { goes_on = λ i h. absurd (omega arith); ends = refl });
  intc_reset = λ d. (0, omega arith, record { goes_on = λ i h. absurd (omega arith); ends = refl });
  uart_clock = λ d. (0, omega arith, record { goes_on = λ i h. absurd (omega arith); ends = refl });
  wakeup_clock =
      λ d. (0, omega arith, record { goes_on = λ i h. absurd (omega arith); ends = refl });
  uart_reset = λ d. (0, omega arith, record { goes_on = λ i h. absurd (omega arith); ends = refl });
  sender = λ d. (0, omega arith, record { goes_on = λ i h. absurd (omega arith); ends = refl });
}

ready-HasPort1 : HasPort1 ready_bus 1
ready-HasPort1 = record {
  clock = λ d. (0, omega arith, record { goes_on = λ i h. absurd (omega arith); ends = refl });
  reset = λ d. (0, omega arith, record { goes_on = λ i h. absurd (omega arith); ends = refl });
}

ready-InTime : InTime ready_bus 1 2
ready-InTime = record {
  clock_select =
      λ d. (0, omega arith, record { goes_on = λ i h. absurd (omega arith); ends = refl });
  clock = λ d. (0, omega arith, record { goes_on = λ i h. absurd (omega arith); ends = refl });
  reset = λ d. (0, omega arith, record { goes_on = λ i h. absurd (omega arith); ends = refl });
  writes = λ d. (0, omega arith, record { goes_on = λ i h. absurd (omega arith); ends = refl });
}

abbrev blank_process : Process
blank_process = record {
  registers = λ _. 0;
  stack_pointer = 0;
  link_register = 0;
  cpsr = 0;
  program_counter = 0;
  segment_base = 0;
  current_mode = 0;
  shared_page = 0;
  stack_top = 0;
  name = [];
  pid = 0;
  priority = 0;
  state = undefined;
}

abbrev blank_buffer : GenericBuffer ℕ
blank_buffer = record { buffer = λ _. 0; head = 0; tail = 0; size = 0 }

abbrev blank : Scheduler
blank = record {
  processes = λ _. blank_process;
  idle_process = none;
  current_index = 0;
  num_processes = 0;
  process_queue = blank_buffer;
  free_processes = blank_buffer;
  ready_queue = blank_buffer;
  current_process = none;
}

abbrev address_of : ℕ → ℕ
address_of i = 0x80100000 + 0x10080 * i

abbrev entry : EntryPoints
entry = record { idle_task = 0x80000100; p1 = 0x80000200; p2 = 0x80000300; motor_task = 0x80000400 }

abbrev ring : CharBuffer
ring = record { buffer = λ _. 0; head = 0; tail = 0; size = 0; lines = 0 }

abbrev kernel : Kernel (Unit {0})
kernel = record {
  frames = record { addr = λ _. 0; next = λ _. none; frame_list = none };
  ports = record { handlers = λ _. other_irq; uart = record { rx0 = ring; rx1 = ring; sent = [] } };
  timer_tick_funcs = λ _. none;
  sched = blank;
}

-- A tick that does nothing.
abbrev tick : Io (Unit {0}) (Unit {0})
tick = skip

kmain_lem_example :
    (k' : Kernel (Unit {0})) × Returns
      (kmain ready_bus 1 address_of tick (0xE59FF018 ∷ []) entry 2 kernel)
      k'
    × (k'.sched.current_process ≡ some 1)
    × (ready_list k'.sched ≡ 2 ∷ 3 ∷ [])
    × (k'.ports.handlers 72 ≡ uart0_irq)
    × (k'.ports.handlers 73 ≡ uart1_irq)
    × (k'.ports.handlers 68 ≡ handle_timer_n_irq 2)
    × (k'.timer_tick_funcs 2 ≡ some tick)
    × (k'.frames ≡ init_frame_allocator kernel.frames 2)
kmain_lem_example =
    kmain_lem ready_bus 1 ready-IsPrompt ready-HasPort1 address_of tick ready-InTime entry
      (0xE59FF018 ∷ []) 2 kernel refl
