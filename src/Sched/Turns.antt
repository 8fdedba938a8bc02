-- ===== src/Sched/Turns.antt =====
-- `scheduler_run` of os/scheduler/scheduler.c against round robin.
use kernel_team_project.Base.{
  ℕ, ◌≤◌, ◌<◌, ◌≡◌, ◌∙◌, refl, ap, inl, inr, Option, none, some, List, [], ◌∷◌, arith, ◌==◌,
  Bool-cases, length, update, eq→==,
}
use kernel_team_project.Ring.{GenericBuffer, generic_pop}
use kernel_team_project.Ring.Generic
use kernel_team_project.Ring.Queue
use kernel_team_project.Sched.{Scheduler, running, requeue, next_process, dispatch, scheduler_run}
use kernel_team_project.Sched.Queue as Spec

-- The processes that are ready, in the order of their turns.
abbrev pub ready_list : Scheduler → List ℕ
ready_list s = Generic.contents s.ready_queue

-- The scheduler can run: its queue is valid and has room, and it has an idle process.
pub record IsValid (s : Scheduler) (idle : ℕ) : Type 0 where
  pub queue : Generic.IsValid s.ready_queue
  pub room : s.ready_queue.size < 512
  pub has_idle : s.idle_process ≡ some idle

-- A scheduler once the current process has joined the queue.
record Requeued (s : Scheduler) (idle : ℕ) (waiting : List ℕ) (s' : Scheduler) : Type 0 where
  queue : Generic.IsValid s'.ready_queue
  list : ready_list s' ≡ waiting
  has_idle : s'.idle_process ≡ some idle
  room : s'.ready_queue.size ≤ 512

requeue-Requeued :
    (s : Scheduler) (idle : ℕ) (current : Option ℕ)
    → IsValid s idle
    → Requeued s idle (Spec.waiting idle current (ready_list s)) (requeue s current (some idle))
unfolding requeue Spec.waiting
requeue-Requeued s idle none v = record {
  queue = v.queue;
  list = refl;
  has_idle = v.has_idle;
  room = omega (arith, v.room);
}
requeue-Requeued s idle (some c) v = elim (Bool-cases (c == idle)) [
  | inl idling ↦
      rw idling (record {
        queue = v.queue;
        list = refl;
        has_idle = v.has_idle;
        room = omega (arith, v.room);
      })
  | inr working ↦
      let pushed = Generic.push-room c v.queue v.room in
      rw working (record {
        queue = Generic.push-IsValid c v.queue;
        list = pushed.0;
        has_idle = v.has_idle;
        room = omega (arith, v.room, pushed.1);
      })
]

-- What `scheduler_run` makes of a scheduler: the process `next` runs, and `queue` is left.
pub record Switched (s : Scheduler) (idle next : ℕ) (queue : List ℕ) (s' : Scheduler) : Type 0 where
  pub runs : scheduler_run s ≡ some s'
  pub current : s'.current_process ≡ some next
  pub list : ready_list s' ≡ queue
  pub is_running : (s'.processes next).state ≡ running
  pub valid : IsValid s' idle

-- The scheduler that runs `p`, once a process has been taken from the queue.
abbrev switched_to : Scheduler → ℕ → Scheduler
switched_to s p = record s {
  ready_queue = (generic_pop s.ready_queue).1;
  processes = update s.processes p (record (s.processes p) { state = running });
  current_process = some p;
}

abbrev run_requeued : Scheduler → Option Scheduler
run_requeued s =
    dispatch (record s { ready_queue = (generic_pop s.ready_queue).1 })
      (next_process (generic_pop s.ready_queue).0 s.idle_process)

popped :
    {b : GenericBuffer ℕ} (w : List ℕ)
    → Generic.IsValid b
    → Generic.contents b ≡ w
    → ((generic_pop b).0, Generic.contents (generic_pop b).1) ≡ Queue.pop w
popped w v e = Generic.pop_refines v ∙ ap Queue.pop e

module _ {s : Scheduler} {idle : ℕ} where
  picks :
      (w : List ℕ) {s' : Scheduler}
      → Requeued s idle w s'
      → let (next, rest) = Spec.pick idle w in
        (run_requeued s' ≡ some (switched_to s' next))
        × (ready_list (switched_to s' next) ≡ rest)
        × (length rest < 512)
  unfolding dispatch Queue.pop Spec.pick
  picks [] {s' = s'} r =
      let pop = popped [] r.queue r.list in
      (rw (ap (λ t. t.0) pop, r.has_idle), ap (λ t. t.1) pop, omega arith)
  picks (p ∷ q) {s' = s'} r =
      let pop = popped (p ∷ q) r.queue r.list in
      (
        rw (ap (λ t. t.0) pop),
        ap (λ t. t.1) pop,
        omega (arith, r.room, Generic.length-contents s'.ready_queue, ap length r.list),
      )

-- Each run is one step of round robin: the process that was running, unless it is the idle one, goes
-- to the end of the queue, and the first of the queue runs, or the idle process if there is none.
-- The scheduler can run again.
pub scheduler_run_refines :
    (s : Scheduler) (idle : ℕ)
    → IsValid s idle
    → let (next, queue) = Spec.schedule idle s.current_process (ready_list s) in
      (s' : Scheduler) × Switched s idle next queue s'
unfolding scheduler_run Spec.schedule
scheduler_run_refines s idle v =
    let requeued = requeue s s.current_process (some idle) in
    let w = Spec.waiting idle s.current_process (ready_list s) in
    let r = requeue-Requeued s idle s.current_process v in
    let next = (Spec.pick idle w).0 in
    let step = picks w r in
    (
      switched_to requeued next,
      record {
        runs = ap (λ i. run_requeued (requeue s s.current_process i)) v.has_idle ∙ step.0;
        current = refl;
        list = step.1;
        is_running = rw (eq→== next next refl) refl;
        valid = record {
          queue = Generic.pop-IsValid r.queue;
          room = omega (
            arith,
            step.2,
            ap length step.1,
            Generic.length-contents (generic_pop requeued.ready_queue).1,
          );
          has_idle = r.has_idle;
        };
      },
    )
