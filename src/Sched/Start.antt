-- ===== src/Sched/Start.antt =====
-- `scheduler_init` of os/scheduler/scheduler.c with its messages and its timer, on any device. `scheduler_tick`,
-- which the timer calls, is a parameter: its own count is not part of the state here.
use Prim.Native.String.{String}
use kernel_team_project.Base.{ℕ, ◌≡◌, refl, arith, Option, none, some, bind-some, List, [], ◌∷◌}
use kernel_team_project.Regs.{Bus, Io, pure, stuck, ◌>>=◌, ◌>>◌}
use kernel_team_project.Regs.Ends.{Returns, bind-Returns, unit-Returns}
use kernel_team_project.Uart.Printf.{str}
use kernel_team_project.Uart.Print.{port_printf, CanSend, port_printf-Ends}
use kernel_team_project.Timer.{Timers, timer_init, wire}
use kernel_team_project.Timer.Wiring.{InTime, IsWired, timer_init-Returns, wire-IsWired}
use kernel_team_project.Sched.{
  EntryPoints, Scheduler, init_tables, init_idle, init_ready, init_processes, idle_name, p1_name,
  p2_name, motor_name,
}
use kernel_team_project.Sched.Init.{IsStarted, init_processes-IsStarted}

-- A call that leaves the devices alone; `none` is a call that does not return.
abbrev pub in_memory : {D A : Type 0} → Option A → Io D A
in_memory none = stuck
in_memory (some a) = pure a

-- TIMER2
abbrev pub timer2 : ℕ
timer2 = 2

module _ {D : Type 0} (bus : Bus D) (fuel : ℕ) (address : ℕ → ℕ)
    (scheduler_tick : Io D (Unit {0})) where
  abbrev pub say : String → Io D (Unit {0})
  say fmt = port_printf bus fuel fmt []

  abbrev pub say_created : (name : List ℕ) → Io D (Unit {0})
  say_created name = port_printf bus fuel "Created process: %s\n" (str name ∷ [])

  -- Up to the timer. A process that cannot be created ends in an endless loop, after a message.
  unfoldable pub create_processes : EntryPoints → Scheduler → Io D Scheduler
  create_processes entry s = do
    say "Creating idle process...\n"
    s ← in_memory (init_idle address (init_tables s) entry.idle_task)
    say_created idle_name
    say "Creating P1 process...\n"
    s ← in_memory (init_ready address s entry.p1 p1_name)
    say_created p1_name
    say "Creating P2 process...\n"
    s ← in_memory (init_ready address s entry.p2 p2_name)
    say_created p2_name
    say "Creating motor process...\n"
    s ← in_memory (init_ready address s entry.motor_task motor_name)
    say_created motor_name
    pure s

  -- From the timer on.
  unfoldable pub start_timer : Timers D → Scheduler → Io D (Timers D × Scheduler)
  start_timer t s = do
    (started, t) ← timer_init bus fuel t timer2 100 scheduler_tick
    say "Timer started\n"
    say "Scheduler Initialized\n"
    pure (t, s)

  unfoldable pub scheduler_init : Timers D → EntryPoints → Scheduler → Io D (Timers D × Scheduler)
  scheduler_init t entry s = do s ← create_processes entry s; start_timer t s

module _ {D : Type 0} (bus : Bus D) (fuel : ℕ) (address : ℕ → ℕ) (scheduler_tick : Io D (Unit {0}))
    (sender : CanSend bus fuel) where
  said :
      {A : Type 0} (fmt : String) (k : Io D A) {a : A}
      → Returns k a
      → Returns (port_printf bus fuel fmt [] >> k) a
  said fmt k h =
      bind-Returns (port_printf bus fuel fmt []) (λ _. k)
        (unit-Returns (port_printf bus fuel fmt []) (port_printf-Ends bus fuel sender fmt [])) h

  named :
      {A : Type 0} (name : List ℕ) (k : Io D A) {a : A}
      → Returns k a
      → Returns (say_created bus fuel address scheduler_tick name >> k) a
  named name k h =
      let call = say_created bus fuel address scheduler_tick name in
      bind-Returns call (λ _. k)
        (unit-Returns call
          (port_printf-Ends bus fuel sender "Created process: %s\n" (str name ∷ [])))
        h

  -- A process that is created in memory, with the messages around it.
  created :
      {A B : Type 0} (fmt : String) (name : List ℕ) {o : Option A} {a : A} (k : A → Io D B) {b : B}
      → o ≡ some a
      → Returns (k a) b
      → Returns
          (port_printf bus fuel fmt []
            >> (in_memory o >>= λ s. say_created bus fuel address scheduler_tick name >> k s))
          b
  created fmt name {o} {a} k e h =
      said fmt (in_memory o >>= λ s. say_created bus fuel address scheduler_tick name >> k s)
        (rw e (named name (k a) h))

  create_processes-Returns :
      (entry : EntryPoints) (s s' : Scheduler)
      → init_processes address entry s ≡ some s'
      → Returns (create_processes bus fuel address scheduler_tick entry s) s'
  unfolding create_processes init_processes
  create_processes-Returns entry s s' e =
      let (s1, e1, r1) = bind-some (init_idle address (init_tables s) entry.idle_task) _ e in
      let (s2, e2, r2) = bind-some (init_ready address s1 entry.p1 p1_name) _ r1 in
      let (s3, e3, r3) = bind-some (init_ready address s2 entry.p2 p2_name) _ r2 in
      created "Creating idle process...\n" idle_name _ e1 (
        created "Creating P1 process...\n" p1_name _ e2 (
          created "Creating P2 process...\n" p2_name _ e3
            (created "Creating motor process...\n" motor_name pure r3 (λ m. (m, refl)))))

  start_timer-Returns :
      (t : Timers D) (s : Scheduler)
      → InTime bus fuel timer2
      → Returns (start_timer bus fuel address scheduler_tick t s) (wire t timer2 scheduler_tick, s)
  unfolding start_timer
  start_timer-Returns t s h =
      bind-Returns (timer_init bus fuel t timer2 100 scheduler_tick) _
        (timer_init-Returns bus fuel t timer2 100 scheduler_tick (omega arith) h)
        (said _ _ (said _ _ (λ m. (m, refl))))

  pub scheduler_init-Returns :
      (t : Timers D) (entry : EntryPoints) (s s' : Scheduler)
      → InTime bus fuel timer2
      → init_processes address entry s ≡ some s'
      → Returns
          (scheduler_init bus fuel address scheduler_tick t entry s)
          (wire t timer2 scheduler_tick, s')
  unfolding scheduler_init
  scheduler_init-Returns t entry s s' h e =
      bind-Returns (create_processes bus fuel address scheduler_tick entry s) _
        (create_processes-Returns entry s s' e) (start_timer-Returns t s' h)

  -- On a device whose sender takes characters in time, and where the waits for timer 2 end,
  -- `scheduler_init` returns, whatever the tables held before. Process 0 is then the idle one, processes
  -- 1, 2 and 3 are ready in this order, the other 28 are free, the scheduler can run, and its count of
  -- processes is 7, though there are 4. Timer 2 calls the tick function of the scheduler.
  pub scheduler_init-IsStarted :
      (t : Timers D) (entry : EntryPoints) (s : Scheduler)
      → InTime bus fuel timer2
      → (t' : Timers D) × (s' : Scheduler) × Returns
          (scheduler_init bus fuel address scheduler_tick t entry s)
          (t', s')
        × IsStarted s'
        × IsWired t' timer2 scheduler_tick
  scheduler_init-IsStarted t entry s h =
      let (s', e, started) = init_processes-IsStarted address entry s in
      (
        wire t timer2 scheduler_tick,
        s',
        scheduler_init-Returns t entry s s' h e,
        started,
        wire-IsWired t timer2 scheduler_tick (omega arith),
      )
