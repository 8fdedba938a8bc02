-- ===== src/Sched/Init.antt =====
-- What `scheduler_init` makes of the tables: the queues, the idle process and the count of processes.
use kernel_team_project.Base.{ℕ, ◌+◌, ◌≡◌, refl, some, [], ◌∷◌, tabulate, arith}
use kernel_team_project.Ring.{generic_init, generic_push, generic_pop}
use kernel_team_project.Ring.Generic
use kernel_team_project.Sched.{
  Scheduler, EntryPoints, init_processes, init_tables, populate, add_free, init_idle, init_ready,
  process_create, create_from, add_ready,
}
use kernel_team_project.Sched.Turns.{IsValid, ready_list}

-- The scheduler that `scheduler_init` leaves, whatever it was before.
pub record IsStarted (s : Scheduler) : Type 0 where
  pub idle : s.idle_process ≡ some 0
  pub ready : ready_list s ≡ 1 ∷ 2 ∷ 3 ∷ []
  pub all : Generic.contents s.process_queue ≡ 0 ∷ 1 ∷ 2 ∷ 3 ∷ []
  pub free : Generic.contents s.free_processes ≡ tabulate 28 (λ k. 4 + k)
  pub count : s.num_processes ≡ 7
  pub can_run : IsValid s 0

module _ (address : ℕ → ℕ) (entry : EntryPoints) (s : Scheduler) where
  pub init_processes-IsStarted :
      (s' : Scheduler) × (init_processes address entry s ≡ some s') × IsStarted s'
  unfolding init_processes init_tables populate add_free init_idle init_ready process_create
      create_from add_ready generic_init generic_push generic_pop
  init_processes-IsStarted = (
    _,
    refl,
    record {
      idle = refl;
      ready = refl;
      all = refl;
      free = refl;
      count = refl;
      can_run = record { queue = omega arith; room = omega arith; has_idle = refl };
    },
  )

  -- The process that runs, which is none at the start, is left as it is.
  pub init_processes-current :
      (s' : Scheduler) × (init_processes address entry s ≡ some s')
      × (s'.current_process ≡ s.current_process)
  unfolding init_processes init_tables populate add_free init_idle init_ready process_create
      create_from add_ready generic_init generic_push generic_pop
  init_processes-current = (_, refl, refl)
