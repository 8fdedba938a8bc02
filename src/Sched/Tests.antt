-- ===== src/Sched/Tests.antt =====
-- The theorems about the scheduler at a kernel that has just been started.
use kernel_team_project.Base.{
  ℕ, ◌+◌, ◌*◌, ◌≡◌, refl, ap, none, some, [], arith, get_elem?, ◌==◌, if◌then◌else◌,
}
use kernel_team_project.Ring.{GenericBuffer}
use kernel_team_project.Sched.{Process, Scheduler, EntryPoints, undefined}
use kernel_team_project.Sched.Create.{Created, process_create-Created}
use kernel_team_project.Sched.Init.{IsStarted, init_processes-IsStarted}
use kernel_team_project.Sched.Start.{scheduler_init, scheduler_init-IsStarted}
use kernel_team_project.Regs.{Bus, Io, skip}
use kernel_team_project.Regs.Ends.{Returns}
use kernel_team_project.Intc.Handler.{other_irq}
use kernel_team_project.Timer.{Timers}
use kernel_team_project.Timer.Wiring.{InTime, IsWired}
use kernel_team_project.Sched.Queue as Spec
use kernel_team_project.Sched.Turns.{Switched, ready_list, scheduler_run_refines}
use kernel_team_project.Sched.Fair.{runs, runs-turn}

abbrev blank_process : Process
blank_process = record {
  registers = λ _. 0;
  stack_pointer = 0;
  link_register = 0;
  cpsr = 0;
  program_counter = 0;
  segment_base = 0;
  current_mode = 0;
  shared_page = 0;
  stack_top = 0;
  name = [];
  pid = 0;
  priority = 0;
  state = undefined;
}

abbrev blank_buffer : GenericBuffer ℕ
blank_buffer = record { buffer = λ _. 0; head = 0; tail = 0; size = 0 }

abbrev blank : Scheduler
blank = record {
  processes = λ _. blank_process;
  idle_process = none;
  current_index = 0;
  num_processes = 0;
  process_queue = blank_buffer;
  free_processes = blank_buffer;
  ready_queue = blank_buffer;
  current_process = none;
}

abbrev address : ℕ → ℕ
address i = 0x80100000 + 0x10080 * i

abbrev entry : EntryPoints
entry = record { idle_task = 0x80000100; p1 = 0x80000200; p2 = 0x80000300; motor_task = 0x80000400 }

-- A device on which all waits end at once: the clock of timer 2 is selected, its registers read as 0, and the
-- sender of the port is empty.
abbrev ready_bus : Bus (Unit {0})
ready_bus = record {
  load = λ addr d. (if addr == 0x44E00508 then 2 else if addr == 0x44E09014 then 0x20 else 0, d);
  store = λ addr value d. d;
}

ready-InTime : InTime ready_bus 1 2
ready-InTime = record {
  clock_select =
      λ d. (0, omega arith, record { goes_on = λ i h. absurd (omega arith); ends = refl });
  clock = λ d. (0, omega arith, record { goes_on = λ i h. absurd (omega arith); ends = refl });
  reset = λ d. (0, omega arith, record { goes_on = λ i h. absurd (omega arith); ends = refl });
  writes = λ d. (0, omega arith, record { goes_on = λ i h. absurd (omega arith); ends = refl });
}

abbrev no_timers : Timers (Unit {0})
no_timers = record { timer_tick_funcs = λ _. none; handlers = λ _. other_irq }

-- A tick that does nothing.
abbrev tick : Io (Unit {0}) (Unit {0})
tick = skip

scheduler_init-IsStarted_example :
    (t : Timers (Unit {0})) × (s : Scheduler) × Returns
      (scheduler_init ready_bus 1 address tick no_timers entry blank)
      (t, s)
    × IsStarted s
    × IsWired t 2 tick
scheduler_init-IsStarted_example =
    scheduler_init-IsStarted ready_bus 1 address tick
      (λ d. (0, omega arith, record { goes_on = λ i h. absurd (omega arith); ends = refl }))
      no_timers entry blank ready-InTime

-- The kernel after `scheduler_init`.
abbrev started : Scheduler
started = (init_processes-IsStarted address entry blank).0

started-IsStarted : IsStarted started
started-IsStarted = (init_processes-IsStarted address entry blank).2

scheduler_run_refines_example :
    (s' : Scheduler) × Switched started 0
      (Spec.schedule 0 started.current_process (ready_list started)).0
      (Spec.schedule 0 started.current_process (ready_list started)).1
      s'
scheduler_run_refines_example = scheduler_run_refines started 0 started-IsStarted.can_run

runs-turn_example : (s' : Scheduler) × (runs 3 started ≡ some s') × (s'.current_process ≡ some 3)
runs-turn_example =
    runs-turn 2 started 0 3 started-IsStarted.can_run
      (ap (λ q. get_elem? q 2) started-IsStarted.ready)

-- One slot, number 5, is free.
abbrev one_free : Scheduler
one_free = record blank {
  free_processes = record { buffer = λ _. 5; head = 511; tail = 0; size = 1 };
}

process_create-Created_example : (s' : Scheduler) × Created address one_free 0x80000100 5 [] s'
process_create-Created_example =
    process_create-Created address one_free 0x80000100 (omega arith) 5 [] refl
