-- ===== src/Frames/Tests.antt =====
-- The theorems about the allocator of frames at concrete lists.
use kernel_team_project.Base.{
  ◌-◌, ◌≡◌, refl, inl, inr, none, some, [], ◌∷◌, ◌++◌, arith, tabulate, update,
}
use kernel_team_project.Frames.{Frames, init_frame_allocator, alloc_frame, free_frame}
use kernel_team_project.Frames.Chain.{frame_addr, IsList}
use kernel_team_project.Frames.Init.{init_frame_allocator_lem}
use kernel_team_project.Frames.Refine.{free_frame_twice, alloc-free}

abbrev empty : Frames
empty = record { addr = λ _. 0; next = λ _. none; frame_list = none }

-- Frame 9, then frame 4.
abbrev two : Frames
two = record {
  addr = update (update (λ _. 0) 9 0x80900000) 4 0x80400000;
  next = update (λ _. none) 9 (some 4);
  frame_list = some 9;
}

two-IsList : IsList two (9 ∷ 4 ∷ [])
two-IsList = record {
  linked = (refl, (omega arith, refl), (refl, (omega arith, refl), refl));
  distinct = (((λ e. absurd (omega arith)), tt), (tt, tt));
}

init_frame_allocator_lem_example :
    IsList
      (init_frame_allocator empty 253)
      (tabulate 255 (λ k. 511 - k) ++ tabulate 3 (λ k. 255 - k))
init_frame_allocator_lem_example = init_frame_allocator_lem empty 253 refl (omega arith)

free_frame_twice_example : free_frame two (frame_addr 4) ≡ some two
free_frame_twice_example =
    free_frame_twice two (9 ∷ 4 ∷ []) two-IsList 4 (omega arith) (inr (inl refl))

alloc-free_example :
    ((alloc_frame two).0 ≡ 0x80900000)
    × IsList (alloc_frame two).1 (4 ∷ [])
    × ((f' : Frames) × (free_frame (alloc_frame two).1 (alloc_frame two).0 ≡ some f')
        × IsList f' (9 ∷ 4 ∷ []))
alloc-free_example = alloc-free two 9 (4 ∷ []) two-IsList
