-- ===== src/Ring/Chars.antt =====
-- The ring buffer of characters of common/circular_buffer.c: the bounded queue that it keeps, and
-- its count of the lines that the queue holds.
use kernel_team_project.Base.{
  ℕ, suc, ◌+◌, ◌-◌, ◌%◌, ◌≤◌, ◌<◌, ◌≡◌, ◌≢◌, refl, ap, ◌∙◌, inl, inr, true, List, [], ◌∷◌, ◌++◌,
  arith, ◌==◌, if◌then◌else◌, u16_mod, update, length, Bool-cases, not-==→ne, ==→eq,
}
use kernel_team_project.Ring.{CharBuffer, char_buffer_size, newline, char_init, char_push, char_pop}
use kernel_team_project.Ring.Queue
use kernel_team_project.Ring.Window.{window, length-window, window-push, window-pop}

-- The characters that the buffer holds, oldest first.
abbrev pub contents : CharBuffer → List ℕ
contents b = window b.buffer b.head b.size

unfoldable pub count_lines : List ℕ → ℕ
count_lines [] = 0
count_lines (c ∷ cs) = (if c == newline then 1 else 0) + count_lines cs

pub record IsValid (b : CharBuffer) : Type 0 where
  pub head_in : b.head < char_buffer_size
  pub tail_in : b.tail < char_buffer_size
  pub size_in : b.size ≤ char_buffer_size
  pub meets : b.tail ≡ (b.head + b.size) % char_buffer_size
  pub counted : b.lines ≡ count_lines (contents b)

pub count_lines-snoc :
    (cs : List ℕ) (c : ℕ)
    → count_lines (cs ++ c ∷ []) ≡ count_lines cs + (if c == newline then 1 else 0)
unfolding count_lines
count_lines-snoc [] c = omega arith
count_lines-snoc (d ∷ cs) c = omega (arith, count_lines-snoc cs c)

count_lines-le : (cs : List ℕ) → count_lines cs ≤ length cs
unfolding count_lines
count_lines-le [] = omega arith
count_lines-le (c ∷ cs) = ground (arith, count_lines-le cs)

length-contents : (b : CharBuffer) → length (contents b) ≡ b.size
length-contents b = length-window b.buffer b.head b.size

lines-le : {b : CharBuffer} → IsValid b → b.lines ≤ 512
lines-le {b} v = omega (arith, v.counted, count_lines-le (contents b), length-contents b)

pub init-IsValid : (b : CharBuffer) → IsValid (char_init b) × (contents (char_init b) ≡ [])
unfolding char_init count_lines
init-IsValid b = (
  record {
    head_in = omega arith;
    tail_in = omega arith;
    size_in = omega arith;
    meets = refl;
    counted = refl;
  },
  refl,
)

window_pushed :
    (b : CharBuffer) (c : ℕ)
    → IsValid b
    → b.size ≢ 512
    → window (update b.buffer b.tail c) b.head ((b.size + 1) % u16_mod) ≡ contents b ++ c ∷ []
window_pushed b c v room =
    let count : (b.size + 1) % u16_mod ≡ suc b.size = omega arith in
    rw count (window-push b.buffer b.head b.size b.tail c v.meets (omega arith))

window_popped :
    (b : CharBuffer) (n : ℕ)
    → IsValid b
    → b.size ≢ 0
    → n ≡ (b.size + u16_mod - 1) % u16_mod
    → contents b ≡ b.buffer b.head ∷ window b.buffer ((b.head + 1) % 512) n
window_popped b n v some_left e =
    let count : b.size ≡ suc n = omega arith in
    ap (λ m. window b.buffer b.head m) count ∙ window-pop b.buffer b.head n v.head_in

contents_none : (b : CharBuffer) → b.size ≡ 0 → contents b ≡ []
contents_none b e = ap (λ m. window b.buffer b.head m) e

-- A push stores, and reports, exactly what the bounded queue of the contents does.
pub push_refines :
    {b : CharBuffer} (c : ℕ)
    → IsValid b
    → let (done, b') = char_push b c in
      (done, contents b') ≡ Queue.push char_buffer_size (contents b) c
unfolding char_push Queue.push
push_refines {b} c v = elim (Bool-cases (b.size == 512)) [
  | inl full ↦ rw (length-contents b, full)
  | inr room ↦
      rw (length-contents b, room)
        (ap (λ l. (true, l)) (window_pushed b c v (not-==→ne b.size 512 room)))
]

-- A pop removes, and returns, exactly what the bounded queue of the contents does.
pub pop_refines :
    {b : CharBuffer}
    → IsValid b
    → let (out, b') = char_pop b in (out, contents b') ≡ Queue.pop (contents b)
unfolding char_pop Queue.pop
pop_refines {b} v = elim (Bool-cases (b.size == 0)) [
  | inl none_left ↦ rw (none_left, contents_none b (==→eq b.size 0 none_left))
  | inr some_left ↦ rw (
    some_left,
    window_popped b ((b.size + u16_mod - 1) % u16_mod) v (not-==→ne b.size 0 some_left) refl,
  )
]

counted_push :
    {b : CharBuffer} (c : ℕ)
    → IsValid b
    → (char_push b c).1.lines ≡ count_lines (contents (char_push b c).1)
unfolding char_push
counted_push {b} c v = elim (Bool-cases (b.size == 512)) [
  | inl full ↦ rw full v.counted
  | inr room ↦
      rw (room, window_pushed b c v (not-==→ne b.size 512 room), count_lines-snoc (contents b) c)
        (ground (arith, lines-le v, v.counted))
]

counted_pop :
    {b : CharBuffer} → IsValid b → (char_pop b).1.lines ≡ count_lines (contents (char_pop b).1)
unfolding char_pop count_lines
counted_pop {b} v = elim (Bool-cases (b.size == 0)) [
  | inl none_left ↦ rw none_left v.counted
  | inr some_left ↦
      let rest = window b.buffer ((b.head + 1) % 512) ((b.size + u16_mod - 1) % u16_mod) in
      rw some_left (
        ground (
          arith,
          lines-le v,
          v.counted,
          ap count_lines (
              window_popped b ((b.size + u16_mod - 1) % u16_mod) v (not-==→ne b.size 0 some_left)
                refl),
        ))
]

-- A push keeps the invariant, the count of lines included.
pub push-IsValid : {b : CharBuffer} (c : ℕ) → IsValid b → IsValid (char_push b c).1
unfolding char_push
push-IsValid c v = record {
  head_in = ground arith;
  tail_in = ground arith;
  size_in = ground arith;
  meets = ground arith;
  counted = counted_push c v;
}

-- A pop keeps the invariant, the count of lines included.
pub pop-IsValid : {b : CharBuffer} → IsValid b → IsValid (char_pop b).1
unfolding char_pop
pop-IsValid v = record {
  head_in = ground arith;
  tail_in = ground arith;
  size_in = ground arith;
  meets = ground arith;
  counted = counted_pop v;
}
