-- ===== src/Ring/Generic.antt =====
-- The generic ring buffer of common/circular_buffer.c against a bounded queue.
use kernel_team_project.Base.{
  ℕ, suc, ◌+◌, ◌-◌, ◌%◌, ◌≤◌, ◌<◌, ◌≡◌, ◌≢◌, refl, ap, ◌∙◌, true, List, [], ◌∷◌, ◌++◌, arith, ◌==◌,
  u16_mod, update, length, Bool-cases, not-==→ne, ne→not-==, ==→eq, inl, inr,
}
use kernel_team_project.Ring.{
  GenericBuffer, generic_buffer_size, generic_init, generic_push, generic_pop,
}
use kernel_team_project.Ring.Queue
use kernel_team_project.Ring.Queue.{Op, put, get, Reply, stored, fetched}
use kernel_team_project.Ring.Window.{window, length-window, window-push, window-pop}

module _ {ℓ} {A : Type ℓ} where
  pub record IsValid (b : GenericBuffer A) : Type 0 where
    pub head_in : b.head < generic_buffer_size
    pub tail_in : b.tail < generic_buffer_size
    pub size_in : b.size ≤ generic_buffer_size
    pub meets : b.tail ≡ (b.head + b.size) % generic_buffer_size

  -- The elements that the buffer holds, oldest first.
  abbrev pub contents : GenericBuffer A → List A
  contents b = window b.buffer b.head b.size

  pub init-IsValid :
      (b : GenericBuffer A) → IsValid (generic_init b) × (contents (generic_init b) ≡ [])
  unfolding generic_init
  init-IsValid b = (omega arith, refl)

  pub push-IsValid : {b : GenericBuffer A} (x : A) → IsValid b → IsValid (generic_push b x).1
  unfolding generic_push
  push-IsValid x v = ground arith

  pub pop-IsValid : {b : GenericBuffer A} → IsValid b → IsValid (generic_pop b).1
  unfolding generic_pop
  pop-IsValid v = ground arith

  -- `window` counts with `suc`, the code with 16-bit sums.
  window_pushed :
      (b : GenericBuffer A) (x : A)
      → IsValid b
      → b.size ≢ 512
      → window (update b.buffer b.tail x) b.head ((b.size + 1) % u16_mod) ≡ contents b ++ x ∷ []
  window_pushed b x v room =
      let count : (b.size + 1) % u16_mod ≡ suc b.size = omega arith in
      rw count (window-push b.buffer b.head b.size b.tail x v.meets (omega arith))

  window_popped :
      (b : GenericBuffer A) (n : ℕ)
      → IsValid b
      → b.size ≢ 0
      → n ≡ (b.size + u16_mod - 1) % u16_mod
      → contents b ≡ b.buffer b.head ∷ window b.buffer ((b.head + 1) % 512) n
  window_popped b n v some_left e =
      let count : b.size ≡ suc n = omega arith in
      ap (λ m. window b.buffer b.head m) count ∙ window-pop b.buffer b.head n v.head_in

  contents_none : (b : GenericBuffer A) → b.size ≡ 0 → contents b ≡ []
  contents_none b e = ap (λ m. window b.buffer b.head m) e

  pub length-contents : (b : GenericBuffer A) → length (contents b) ≡ b.size
  length-contents b = length-window b.buffer b.head b.size

  -- A push stores, and reports, exactly what the bounded queue of the contents does.
  pub push_refines :
      {b : GenericBuffer A} (x : A)
      → IsValid b
      → let (done, b') = generic_push b x in
        (done, contents b') ≡ Queue.push generic_buffer_size (contents b) x
  unfolding generic_push Queue.push
  push_refines {b} x v = elim (Bool-cases (b.size == 512)) [
    | inl full ↦ rw (length-contents b, full)
    | inr room ↦
        rw (length-contents b, room)
          (ap (λ l. (true, l)) (window_pushed b x v (not-==→ne b.size 512 room)))
  ]

  -- A pop removes, and returns, exactly what the bounded queue of the contents does.
  pub pop_refines :
      {b : GenericBuffer A}
      → IsValid b
      → let (out, b') = generic_pop b in (out, contents b') ≡ Queue.pop (contents b)
  unfolding generic_pop Queue.pop
  pop_refines {b} v = elim (Bool-cases (b.size == 0)) [
    | inl none_left ↦ rw (none_left, contents_none b (==→eq b.size 0 none_left))
    | inr some_left ↦ rw (
      some_left,
      window_popped b ((b.size + u16_mod - 1) % u16_mod) v (not-==→ne b.size 0 some_left) refl,
    )
  ]

  -- Where there is room, a push adds to the contents.
  pub push-room :
      {b : GenericBuffer A} (x : A)
      → IsValid b
      → b.size < 512
      → (contents (generic_push b x).1 ≡ contents b ++ x ∷ [])
        × ((generic_push b x).1.size ≡ suc b.size)
  unfolding generic_push
  push-room {b} x v room =
      rw (ne→not-== b.size 512 (omega arith)) (window_pushed b x v (omega arith), omega arith)

  -- a client's calls in order, with what each returns
  unfoldable pub run : GenericBuffer A → List (Op A) → List (Reply A)
  run b [] = []
  run b (put item ∷ calls) = let (done, b') = generic_push b item in stored done ∷ run b' calls
  run b (get ∷ calls) = let (out, b') = generic_pop b in fetched out ∷ run b' calls

  -- No sequence of calls tells a valid buffer from the bounded queue of its contents.
  pub run_refines :
      (calls : List (Op A)) {b : GenericBuffer A}
      → IsValid b
      → run b calls ≡ Queue.run generic_buffer_size (contents b) calls
  unfolding run Queue.run
  run_refines [] v = refl
  run_refines (put item ∷ calls) v =
      rw (run_refines calls (push-IsValid item v), ← push_refines item v)
  run_refines (get ∷ calls) v = rw (run_refines calls (pop-IsValid v), ← pop_refines v)
