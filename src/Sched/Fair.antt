-- ===== src/Sched/Fair.antt =====
-- The turns of the ready processes of os/scheduler/scheduler.c.
use kernel_team_project.Base.{
  ℕ, zero, suc, ◌≡◌, ◌∙◌, refl, ap, arith, inl, inr, Option, none, some, List, [], ◌∷◌, ◌++◌,
  get_elem?, ◌>>=◌, Bool-cases, ◌==◌,
}
use kernel_team_project.Sched.{Scheduler, scheduler_run}
use kernel_team_project.Sched.Queue as Spec
use kernel_team_project.Sched.Turns.{IsValid, ready_list, scheduler_run_refines}

-- `n` runs, each at the next switch of processes.
unfoldable pub runs : ℕ → Scheduler → Option Scheduler
runs zero s = some s
runs (suc n) s = do s' ← scheduler_run s; runs n s'

get_elem?-append : (q r : List ℕ) (n p : ℕ) → get_elem? q n ≡ some p → get_elem? (q ++ r) n ≡ some p
get_elem?-append [] r n p e = absurd (ground arith)
get_elem?-append (x ∷ q) r zero p e = e
get_elem?-append (x ∷ q) r (suc n) p e = get_elem?-append q r n p e

-- Who waits keeps its place when the running process joins.
get_elem?-waiting :
    (idle : ℕ) (current : Option ℕ) (q : List ℕ) (n p : ℕ)
    → get_elem? q n ≡ some p
    → get_elem? (Spec.waiting idle current q) n ≡ some p
unfolding Spec.waiting
get_elem?-waiting idle none q n p e = e
get_elem?-waiting idle (some c) q n p e = elim (Bool-cases (c == idle)) [
  | inl idling ↦ rw idling e
  | inr working ↦ rw working (get_elem?-append q (c ∷ []) n p e)
]

first-pick :
    (idle : ℕ) (w : List ℕ) (p : ℕ) → get_elem? w 0 ≡ some p → some (Spec.pick idle w).0 ≡ some p
unfolding Spec.pick
first-pick idle [] p e = absurd (ground arith)
first-pick idle (x ∷ w) p e = e

later-pick :
    (idle : ℕ) (w : List ℕ) (n p : ℕ)
    → get_elem? w (suc n) ≡ some p
    → get_elem? (Spec.pick idle w).1 n ≡ some p
unfolding Spec.pick
later-pick idle [] n p e = absurd (ground arith)
later-pick idle (x ∷ w) n p e = e

-- The process at place `n` of the ready queue runs after `n + 1` runs of the scheduler, and these
-- runs all find a process to run.
pub runs-turn :
    (n : ℕ) (s : Scheduler) (idle p : ℕ)
    → IsValid s idle
    → get_elem? (ready_list s) n ≡ some p
    → (s' : Scheduler) × (runs (suc n) s ≡ some s') × (s'.current_process ≡ some p)
unfolding runs Spec.schedule
runs-turn zero s idle p v e =
    let w = Spec.waiting idle s.current_process (ready_list s) in
    let (s', step) = scheduler_run_refines s idle v in
    let place = get_elem?-waiting idle s.current_process (ready_list s) 0 p e in
    (s', rw step.runs refl, step.current ∙ first-pick idle w p place)
runs-turn (suc n) s idle p v e =
    let w = Spec.waiting idle s.current_process (ready_list s) in
    let (s', step) = scheduler_run_refines s idle v in
    let place = get_elem?-waiting idle s.current_process (ready_list s) (suc n) p e in
    let (t, runs_on, turn) =
      runs-turn n s' idle p step.valid
        (ap (λ q. get_elem? q n) step.list ∙ later-pick idle w n p place) in
    (t, rw step.runs runs_on, turn)
