-- ===== src/Frames/Length.antt =====
-- The length of the list of free frames of os/mmu/mmu.c.
use kernel_team_project.Base.{
  ℕ, zero, suc, ◌≤◌, ◌<◌, ◌≡◌, Option, List, [], ◌∷◌, arith, ◌==◌, if◌then◌else◌, length,
  Bool-cases, inl, inr, not-==→ne, ==→eq,
}
use kernel_team_project.Frames.{Frames}
use kernel_team_project.Frames.Chain.{Linked, Fresh, Distinct, IsList}

-- The list without the first `n` in it.
remove : ℕ → List ℕ → List ℕ
remove n [] = []
remove n (x ∷ l) = let rest = x ∷ remove n l in if x == n then l else rest

-- Every number of the list is below `n`.
abbrev Below : ℕ → List ℕ → Type 0
Below n [] = Unit
Below n (x ∷ l) = (x < n) × Below n l

length-remove : (n : ℕ) (l : List ℕ) → length l ≤ suc (length (remove n l))
unfolding remove
length-remove n [] = omega arith
length-remove n (x ∷ l) = ground (arith, length-remove n l)

Fresh-remove : (n i : ℕ) (l : List ℕ) → Fresh i l → Fresh i (remove n l)
unfolding remove
Fresh-remove n i [] h = h
Fresh-remove n i (x ∷ l) h = elim (Bool-cases (x == n)) [
  | inl same ↦ rw same h.1
  | inr other ↦ rw other (h.0, Fresh-remove n i l h.1)
]

Distinct-remove : (n : ℕ) (l : List ℕ) → Distinct l → Distinct (remove n l)
unfolding remove
Distinct-remove n [] h = h
Distinct-remove n (x ∷ l) h = elim (Bool-cases (x == n)) [
  | inl same ↦ rw same h.1
  | inr other ↦ rw other (Fresh-remove n x l h.0, Distinct-remove n l h.1)
]

Below-Fresh : (n i : ℕ) (l : List ℕ) → i ≡ n → Fresh i l → Below (suc n) l → Below n l
Below-Fresh n i [] e fresh h = h
Below-Fresh n i (x ∷ l) e fresh h =
    let ne = fresh.0 in (omega (arith, h.0, ne, e), Below-Fresh n i l e fresh.1 h.1)

Below-remove : (n : ℕ) (l : List ℕ) → Distinct l → Below (suc n) l → Below n (remove n l)
unfolding remove
Below-remove n [] d h = h
Below-remove n (x ∷ l) d h = elim (Bool-cases (x == n)) [
  | inl same ↦ rw same (Below-Fresh n x l (==→eq x n same) d.0 h.1)
  | inr other ↦
      let ne = not-==→ne x n other in rw other (omega (arith, h.0, ne), Below-remove n l d.1 h.1)
]

length-Below : (n : ℕ) (l : List ℕ) → Distinct l → Below n l → length l ≤ n
length-Below zero [] d h = omega arith
length-Below zero (x ∷ l) d h = absurd (omega (arith, h.0))
length-Below (suc n) l d h = omega (
  arith,
  length-remove n l,
  length-Below n (remove n l) (Distinct-remove n l d) (Below-remove n l d h),
)

Linked-Below : (f : Frames) (o : Option ℕ) (l : List ℕ) → Linked f o l → Below 512 l
Linked-Below f o [] h = tt
Linked-Below f o (i ∷ l) h = (h.1.0, Linked-Below f (f.next i) l h.2)

pub length-IsList : (f : Frames) (l : List ℕ) → IsList f l → length l ≤ 512
length-IsList f l list =
    length-Below 512 l list.distinct (Linked-Below f f.frame_list l list.linked)
