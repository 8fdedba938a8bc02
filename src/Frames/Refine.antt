-- ===== src/Frames/Refine.antt =====
-- `alloc_frame` and `free_frame` of os/mmu/mmu.c against a list of free frames.
use kernel_team_project.Base.{
  ℕ, zero, suc, ◌+◌, ◌/◌, ◌%◌, ◌≤◌, ◌<◌, ◌≡◌, ◌≢◌, ◌∙◌, ◌⊎◌, inl, inr, refl, ap, true, false, none,
  some, Option, List, [], ◌∷◌, arith, Bool-cases, eq→==, ne→not-==, length, sub32, ◌==◌, ◌!=◌, ◌||◌,
  ltb, leb,
}
use kernel_team_project.Frames.{
  Frames, phys_base, phys_size, section_size, link, alloc_from, alloc_frame, is_free, free_frame,
}
use kernel_team_project.Frames.Length.{length-IsList}
use kernel_team_project.Frames.Chain.{frame_addr, Linked, Fresh, IsList, link-IsList}

alloc_from-none : (f : Frames) (o : Option ℕ) → o ≡ none → alloc_from f o ≡ (0, f)
unfolding alloc_from
alloc_from-none f o e = rw e

alloc_from-some :
    (f : Frames) (o : Option ℕ) (i : ℕ)
    → o ≡ some i
    → alloc_from f o ≡ (f.addr i, record f { frame_list = f.next i })
unfolding alloc_from
alloc_from-some f o i e = rw e

-- What a frame given out leaves.
pub record Allocated (f : Frames) (i : ℕ) (rest : List ℕ) (f' : Frames) : Type 0 where
  pub returned : alloc_frame f ≡ (frame_addr i, f')
  pub list : IsList f' rest
  pub taken : Fresh i rest

-- The first free frame is given out, by its address, and is then no longer in the list.
pub alloc_frame-Allocated :
    (f : Frames) (i : ℕ) (rest : List ℕ)
    → IsList f (i ∷ rest)
    → (f' : Frames) × Allocated f i rest f'
unfolding alloc_frame
alloc_frame-Allocated f i rest list =
    let here = list.linked in
    (
      record f { frame_list = f.next i },
      record {
        returned =
            alloc_from-some f f.frame_list i here.0
            ∙ ap (λ a. (a, record f { frame_list = f.next i })) here.1.1;
        list = record { linked = here.2; distinct = list.distinct.1 };
        taken = list.distinct.0;
      },
    )

-- With no free frame the result is 0, and nothing changes.
pub alloc_frame_empty : (f : Frames) → IsList f [] → alloc_frame f ≡ (0, f)
unfolding alloc_frame
alloc_frame_empty f list = alloc_from-none f f.frame_list list.linked

frame_addr-inj : (i j : ℕ) → j ≢ i → frame_addr j ≢ frame_addr i
frame_addr-inj i j ne e = ne (omega arith)

is_free-Fresh :
    (f : Frames) (i fuel : ℕ) (o : Option ℕ) (l : List ℕ)
    → length l ≤ fuel
    → Linked f o l
    → Fresh i l
    → is_free f fuel o (frame_addr i) ≡ some false
unfolding is_free
is_free-Fresh f i fuel o [] enough h fresh = rw h refl
is_free-Fresh f i zero o (j ∷ l) enough h fresh = absurd (omega arith)
is_free-Fresh f i (suc fuel) o (j ∷ l) enough h fresh =
    rw (h.0, h.1.1, ne→not-== (frame_addr j) (frame_addr i) (frame_addr-inj i j fresh.0))
      (is_free-Fresh f i fuel (f.next j) l (omega arith) h.2 fresh.1)

-- The address of a frame passes the tests for alignment and range, and leads back to its index.
module _ (i : ℕ) (h : i < 512) where
  frame_addr-aligned : (frame_addr i % section_size != 0) ≡ false
  frame_addr-aligned = ground arith

  frame_addr-inside :
      (ltb (frame_addr i) phys_base || leb (phys_base + phys_size) (frame_addr i)) ≡ false
  frame_addr-inside = ground arith

  frame_addr-index : sub32 (frame_addr i) phys_base / section_size ≡ i
  frame_addr-index = omega arith

-- The frame is in the list.
abbrev pub In : ℕ → List ℕ → Type 0
In i [] = ⊥
In i (j ∷ l) = (j ≡ i) ⊎ In i l

is_free-In :
    (f : Frames) (i fuel : ℕ) (o : Option ℕ) (l : List ℕ)
    → length l ≤ fuel
    → Linked f o l
    → In i l
    → is_free f fuel o (frame_addr i) ≡ some true
unfolding is_free
is_free-In f i fuel o [] enough h found = absurd found
is_free-In f i zero o (j ∷ l) enough h found = absurd (omega arith)
is_free-In f i (suc fuel) o (j ∷ l) enough h (inl here) =
    rw (h.0, h.1.1, eq→== (frame_addr j) (frame_addr i) (ap frame_addr here))
is_free-In f i (suc fuel) o (j ∷ l) enough h (inr later) =
    let rest = is_free-In f i fuel (f.next j) l (omega arith) h.2 later in
    elim (Bool-cases (frame_addr j == frame_addr i)) [
      | inl same ↦ rw (h.0, h.1.1, same)
      | inr other ↦ rw (h.0, h.1.1, other) rest
    ]

module _ (f : Frames) (l : List ℕ) (list : IsList f l) where
  -- A frame of the physical memory that is not in the list is put in front of it.
  pub free_frame-Fresh :
      (i : ℕ)
      → i < 512
      → Fresh i l
      → (f' : Frames) × (free_frame f (frame_addr i) ≡ some f') × IsList f' (i ∷ l)
  unfolding free_frame
  free_frame-Fresh i h fresh = (
    link f i (frame_addr i),
    rw
        (
          frame_addr-aligned i h,
          frame_addr-inside i h,
          is_free-Fresh f i 512 f.frame_list l (length-IsList f l list) list.linked fresh,
        )
        (ap (λ (j : ℕ). some (link f j (frame_addr i))) (frame_addr-index i h)),
    link-IsList f i l h fresh list,
  )

  -- A frame that is in the list already is not freed again.
  pub free_frame_twice : (i : ℕ) → i < 512 → In i l → free_frame f (frame_addr i) ≡ some f
  unfolding free_frame
  free_frame_twice i h found = rw (
    frame_addr-aligned i h,
    frame_addr-inside i h,
    is_free-In f i 512 f.frame_list l (length-IsList f l list) list.linked found,
  )

-- An address that is not that of a section of the physical memory frees nothing.
pub free_frame_refused :
    (f : Frames) (addr : ℕ)
    → (addr % section_size ≢ 0) ⊎ ((addr < phys_base) ⊎ (phys_base + phys_size ≤ addr))
    → free_frame f addr ≡ some f
unfolding free_frame
free_frame_refused f addr wrong = ground arith

-- From a list with a first frame its address is given out and it leaves the list; freeing it then
-- succeeds, and the list is again what it was.
pub alloc-free :
    (f : Frames) (i : ℕ) (rest : List ℕ)
    → IsList f (i ∷ rest)
    → ((alloc_frame f).0 ≡ frame_addr i)
      × IsList (alloc_frame f).1 rest
      × ((f' : Frames) × (free_frame (alloc_frame f).1 (alloc_frame f).0 ≡ some f')
          × IsList f' (i ∷ rest))
alloc-free f i rest list =
    let (f', got) = alloc_frame-Allocated f i rest list in
    let (freed, e, again) = free_frame-Fresh f' rest got.list i list.linked.1.0 got.taken in
    (ap (λ p. p.0) got.returned, rw got.returned got.list, (freed, rw got.returned e, again))
