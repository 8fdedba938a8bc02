-- ===== src/Frames/Chain.antt =====
-- The list of free frames of os/mmu/mmu.c as a list of indices: the links in the array, and what a
-- write to a frame that is not in the list leaves of them.
use kernel_team_project.Base.{
  ℕ, ◌+◌, ◌*◌, ◌<◌, ◌≡◌, ◌≢◌, none, some, Option, List, [], ◌∷◌, ne→not-==, eq→==, refl,
}
use kernel_team_project.Frames.{Frames, phys_base, section_size, link}

-- The address of a frame.
abbrev pub frame_addr : ℕ → ℕ
frame_addr i = phys_base + i * section_size

-- From `o` on the links run through the frames `l`, each of which has its address.
abbrev pub Linked : Frames → Option ℕ → List ℕ → Type 0
Linked f o [] = o ≡ none
Linked f o (i ∷ l) = (o ≡ some i) × ((i < 512) × (f.addr i ≡ frame_addr i)) × Linked f (f.next i) l

-- No frame of the list is `i`.
abbrev pub Fresh : ℕ → List ℕ → Type 0
Fresh i [] = Unit
Fresh i (j ∷ l) = (j ≢ i) × Fresh i l

abbrev pub Distinct : List ℕ → Type 0
Distinct [] = Unit
Distinct (i ∷ l) = Fresh i l × Distinct l

-- The free list of the allocator is `l`, each frame once.
pub record IsList (f : Frames) (l : List ℕ) : Type 0 where
  pub linked : Linked f f.frame_list l
  pub distinct : Distinct l

Linked-update :
    (f : Frames) (i paddr : ℕ) (o : Option ℕ) (l : List ℕ)
    → Fresh i l
    → Linked f o l
    → Linked (link f i paddr) o l
Linked-update f i paddr o [] fresh h = h
Linked-update f i paddr o (j ∷ l) fresh h =
    let other = ne→not-== j i fresh.0 in
    (h.0, (h.1.0, rw other h.1.1), rw other (Linked-update f i paddr (f.next j) l fresh.1 h.2))

-- A fresh frame put in front of the list.
pub link-IsList :
    (f : Frames) (i : ℕ) (l : List ℕ)
    → i < 512
    → Fresh i l
    → IsList f l
    → IsList (link f i (frame_addr i)) (i ∷ l)
link-IsList f i l h fresh list =
    let same = eq→== i i refl in
    record {
      linked = (
        refl,
        (h, rw same refl),
        rw same (Linked-update f i (frame_addr i) f.frame_list l fresh list.linked),
      );
      distinct = (fresh, list.distinct);
    }
