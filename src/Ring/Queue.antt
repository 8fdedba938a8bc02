-- ===== src/Ring/Queue.antt =====
-- What a ring buffer of common/circular_buffer.c promises: a first-in first-out queue of bounded
-- length, oldest element first.
use kernel_team_project.Base.{
  ℕ, Bool, true, false, Option, none, some, List, [], ◌∷◌, ◌++◌, ◌==◌, if◌then◌else◌, length,
}

-- What a client can ask, and what it sees of each call.
pub data Op {ℓ} (A : Type ℓ) : Type ℓ where
  put : A → Op A
  get : Op A

pub data Reply {ℓ} (A : Type ℓ) : Type ℓ where
  stored : Bool → Reply A
  fetched : Option A → Reply A

module _ {ℓ} {A : Type ℓ} where
  unfoldable pub push : ℕ → List A → A → Bool × List A
  push cap q x = if length q == cap then (false, q) else (true, q ++ x ∷ [])

  unfoldable pub pop : List A → Option A × List A
  pop [] = (none, [])
  pop (x ∷ q) = (some x, q)

  unfoldable pub run : ℕ → List A → List (Op A) → List (Reply A)
  run cap q [] = []
  run cap q (put x ∷ ops) = let (done, q') = push cap q x in stored done ∷ run cap q' ops
  run cap q (get ∷ ops) = let (out, q') = pop q in fetched out ∷ run cap q' ops
