-- ===== src/Frames/Init.antt =====
-- The free list that `init_frame_allocator` of os/mmu/mmu.c builds.
use kernel_team_project.Base.{
  ℕ, zero, suc, ◌+◌, ◌-◌, ◌≤◌, ◌<◌, ◌≡◌, ◌≢◌, ◌∙◌, ◌⊎◌, inl, inr, refl, sym, ap, ap₂, none, List,
  [], ◌∷◌, ◌++◌, arith, ne→not-==, tabulate, tabulate-snoc, tabulate-ext, add32, mul32,
}
use mathlib.Core.Path.{subst}
use mathlib.Core.List.{append_assoc, append-nil}
use kernel_team_project.Frames.{
  Frames, phys_base, section_size, boot_page_table_base, link, init_frame, init_frames,
  init_frame_allocator,
}
use kernel_team_project.Frames.Chain.{frame_addr, Fresh, IsList, link-IsList}

paddr_lem : (i : ℕ) → i < 512 → add32 phys_base (mul32 i section_size) ≡ frame_addr i
paddr_lem i h = omega arith

init_frame-link :
    (f : Frames) (i : ℕ) → i < 512 → i ≢ 256 → init_frame f i ≡ link f i (frame_addr i)
unfolding init_frame
init_frame-link f i h ne =
    rw (paddr_lem i h, ne→not-== (frame_addr i) boot_page_table_base (λ e. ne (omega arith))) refl

-- The frames `i`, …, `i + n - 1`, the last one first.
abbrev down : (n i : ℕ) → List ℕ
down n i = tabulate n (λ k. i + n - 1 - k)

down-suc : (n i : ℕ) (l : List ℕ) → down n (i + 1) ++ i ∷ l ≡ down (suc n) i ++ l
down-suc n i l =
    let front : down (suc n) i ≡ down n (i + 1) ++ i ∷ [] =
      tabulate-snoc n (λ k. i + suc n - 1 - k)
      ∙ ap₂ (λ a (b : ℕ). a ++ b ∷ [])
          (tabulate-ext n (λ k. i + suc n - 1 - k) (λ k. i + 1 + n - 1 - k) (λ k hk. omega arith))
          (omega arith) in
    sym (ap (λ a. a ++ l) front ∙ append_assoc (down n (i + 1)) (i ∷ []) l)

-- Rounds of the loop that do not reach the boot loader's page table.
init_frames-run :
    (n i : ℕ) (f : Frames) (l : List ℕ)
    → i + n ≤ 512
    → (256 < i) ⊎ (i + n ≤ 256)
    → ((j : ℕ) → i ≤ j → Fresh j l)
    → IsList f l
    → IsList (init_frames f n i) (down n i ++ l)
unfolding init_frames
init_frames-run zero i f l h side fresh list = list
init_frames-run (suc n) i f l h side fresh list =
    let step : init_frame f i ≡ link f i (frame_addr i) =
      init_frame-link f i (omega arith) (omega arith) in
    let linked : IsList (init_frame f i) (i ∷ l) =
      rw step (link-IsList f i l (omega arith) (fresh i (omega arith)) list) in
    subst (IsList (init_frames (init_frame f i) n (i + 1))) (down-suc n i l) (
      init_frames-run n (i + 1) (init_frame f i) (i ∷ l) (omega arith) (omega arith)
        (λ j hj. ((λ e. absurd (omega arith)), fresh j (omega arith))) linked)

init_frames-add :
    (m n i : ℕ) (f : Frames) → init_frames f (m + n) i ≡ init_frames (init_frames f m i) n (i + m)
unfolding init_frames
init_frames-add zero n i f =
    ap₂ (init_frames f) (let e : 0 + n ≡ n = omega arith in e)
      (let e : i ≡ i + 0 = omega arith in e)
init_frames-add (suc m) n i f =
    ap (λ t. init_frames f t i) (let e : suc m + n ≡ suc (m + n) = omega arith in e)
    ∙ init_frames-add m n (i + 1) (init_frame f i)
    ∙ ap (init_frames (init_frames (init_frame f i) m (i + 1)) n) (omega arith)

Fresh-tabulate :
    (n : ℕ) (g : ℕ → ℕ) (l : List ℕ) (j : ℕ)
    → ((k : ℕ) → k < n → g k ≢ j)
    → Fresh j l
    → Fresh j (tabulate n g ++ l)
Fresh-tabulate zero g l j others fresh = fresh
Fresh-tabulate (suc n) g l j others fresh = (
  others 0 (omega arith),
  Fresh-tabulate n (λ k. g (suc k)) l j (λ k hk. others (suc k) (omega arith)) fresh,
)

init_frame-skip : (f : Frames) → init_frame f 256 ≡ f
unfolding init_frame
init_frame-skip f = refl

init_frames-skip : (n : ℕ) (f : Frames) → init_frames f (suc n) 256 ≡ init_frames f n 257
unfolding init_frames
init_frames-skip n f = ap (λ t. init_frames t n 257) (init_frame-skip f)

-- Where no more than the first half of the memory is mapped, the free list holds the frames behind the
-- mapped ones, the last one first, without the frame of the boot loader's page table, number 256.
pub init_frame_allocator_lem :
    (f : Frames) (mapped_sections : ℕ)
    → f.frame_list ≡ none
    → mapped_sections ≤ 256
    → IsList
        (init_frame_allocator f mapped_sections)
        (tabulate 255 (λ k. 511 - k) ++ tabulate (256 - mapped_sections) (λ k. 255 - k))
unfolding init_frame_allocator
init_frame_allocator_lem f mapped_sections empty h =
    let m = 256 - mapped_sections in
    let low : IsList (init_frames f m mapped_sections) (down m mapped_sections ++ []) =
      init_frames-run m mapped_sections f [] (omega arith) (inr (omega arith)) (λ j hj. tt)
        (record { linked = empty; distinct = tt }) in
    let high : IsList (init_frames (init_frames f m mapped_sections) 255 257)
        (down 255 257 ++ down m mapped_sections ++ []) =
      init_frames-run 255 257 (init_frames f m mapped_sections) (down m mapped_sections ++ [])
        (omega arith) (inl (omega arith))
        (λ j hj.
          Fresh-tabulate m (λ k. mapped_sections + m - 1 - k) [] j (λ k hk e. absurd (omega arith))
            tt)
        low in
    let lists : down m mapped_sections ++ [] ≡ tabulate m (λ k. 255 - k) =
      append-nil (down m mapped_sections)
      ∙ tabulate-ext m (λ k. mapped_sections + m - 1 - k) (λ k. 255 - k) (λ k hk. omega arith) in
    let rounds : init_frames (init_frames f m mapped_sections) 255 257
        ≡ init_frames f (512 - mapped_sections) mapped_sections =
      sym (
        ap (λ t. init_frames f t mapped_sections)
          (let e : 512 - mapped_sections ≡ m + 256 = omega arith in e)
        ∙ init_frames-add m 256 mapped_sections f
        ∙ ap (init_frames (init_frames f m mapped_sections) 256) (omega arith)
        ∙ init_frames-skip 255 (init_frames f m mapped_sections)) in
    subst
      (λ l.
        IsList (init_frames f (512 - mapped_sections) mapped_sections)
          (tabulate 255 (λ k. 511 - k) ++ l))
      lists (subst (λ t. IsList t (down 255 257 ++ down m mapped_sections ++ [])) rounds high)
