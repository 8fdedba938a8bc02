-- ===== src/Sched/Queue.antt =====
-- What `scheduler_run` promises: round robin over a queue of ready processes, with an idle process
-- for when it is empty.
use kernel_team_project.Base.{ℕ, Option, none, some, List, [], ◌∷◌, ◌++◌, ◌==◌, if◌then◌else◌}

-- The queue once the process that was running has joined it.
unfoldable pub waiting : (idle : ℕ) → (current : Option ℕ) → List ℕ → List ℕ
waiting idle none q = q
waiting idle (some c) q = if c == idle then q else q ++ c ∷ []

-- The first of the queue, and the others.
unfoldable pub pick : (idle : ℕ) → List ℕ → ℕ × List ℕ
pick idle [] = (idle, [])
pick idle (p ∷ q) = (p, q)

unfoldable pub schedule : (idle : ℕ) → (current : Option ℕ) → List ℕ → ℕ × List ℕ
schedule idle current q = pick idle (waiting idle current q)
