-- ===== src/Uart/Lines.antt =====
-- `uart_readline` of os/drivers/uart.c and the lines among the characters received.
use kernel_team_project.Base.{
  ℕ, zero, suc, ◌≤◌, ◌<◌, ◌≡◌, ◌≢◌, ◌∙◌, refl, sym, ap, inl, inr, none, some, List, [], ◌∷◌, ◌++◌,
  arith, ◌==◌, if◌then◌else◌, sub32, ne→not-==, Bool-cases, lt→not-leb, le→leb, u32_mod, ◌-◌, ◌⊎◌,
  eq→==, leb,
}
use mathlib.Core.List.{append_assoc, append-nil}
use kernel_team_project.Ring.{CharBuffer, newline, char_pop}
use kernel_team_project.Ring.Chars
use kernel_team_project.Ring.Queue
use kernel_team_project.Uart.{
  Uart, rx, set_rx, num_uarts, uart_getchar, read_char, read_chars, uart_readline,
}

-- The characters up to the first newline, it included, but no more than `n`; and what is left.
unfoldable pub next_line : (n : ℕ) → List ℕ → List ℕ × List ℕ
next_line zero q = ([], q)
next_line (suc n) [] = ([], [])
next_line (suc n) (c ∷ q) =
    let (line, rest) = next_line n q in if c == newline then (c ∷ [], q) else (c ∷ line, rest)

-- The characters that a port has received and not yet given out.
abbrev pub waiting : Uart → ℕ → List ℕ
waiting u uart_index = Chars.contents (rx u uart_index)

-- A line is given out: what is read, and the state of the port behind it.
pub record Line (uart_index : ℕ) (line rest read : List ℕ) (u' : Uart) : Type 0 where
  pub bytes : read ≡ line
  pub left : waiting u' uart_index ≡ rest
  pub valid : Chars.IsValid (rx u' uart_index)

rx-set_rx : (u : Uart) (uart_index : ℕ) (b : CharBuffer) → rx (set_rx u uart_index b) uart_index ≡ b
rx-set_rx u uart_index b = elim (Bool-cases (uart_index == 0)) [
  | inl first ↦ rw first
  | inr second ↦ rw second
]

module _ (uart_index : ℕ) (port : uart_index < num_uarts) where
  -- `uart_getchar` takes the first character that waits.
  getchar-pop :
      (u : Uart) (q : List ℕ)
      → Chars.IsValid (rx u uart_index)
      → waiting u uart_index ≡ q
      → let (out, u') = uart_getchar u uart_index in
        ((out, waiting u' uart_index) ≡ Queue.pop q) × Chars.IsValid (rx u' uart_index)
  unfolding uart_getchar
  getchar-pop u q v e =
      let popped = (char_pop (rx u uart_index)).1 in
      rw (lt→not-leb num_uarts uart_index port, rx-set_rx u uart_index popped)
        (Chars.pop_refines v ∙ ap Queue.pop e, Chars.pop-IsValid v)

  read_chars-Line :
      (rounds : ℕ) (u : Uart) (read q : List ℕ)
      → Chars.IsValid (rx u uart_index)
      → waiting u uart_index ≡ q
      → let (out, u') = read_chars u uart_index rounds read in
        Line uart_index (read ++ (next_line rounds q).0) (next_line rounds q).1 out u'
  unfolding read_chars read_char next_line Queue.pop
  read_chars-Line zero u read q v e = record { bytes = sym (append-nil read); left = e; valid = v }
  read_chars-Line (suc rounds) u read [] v e =
      let got = getchar-pop u [] v e in
      rw (ap (λ t. t.0) got.0)
        (record { bytes = sym (append-nil read); left = ap (λ t. t.1) got.0; valid = got.1 })
  read_chars-Line (suc rounds) u read (c ∷ q) v e =
      let got = getchar-pop u (c ∷ q) v e in
      let left = ap (λ t. t.1) got.0 in
      let u' = (uart_getchar u uart_index).1 in
      let more = read_chars-Line rounds u' (read ++ c ∷ []) q got.1 left in
      elim (Bool-cases (c == newline)) [
        | inl ends ↦
            rw (ap (λ t. t.0) got.0, ends) (record { bytes = refl; left = left; valid = got.1 })
        | inr goes_on ↦
            rw (ap (λ t. t.0) got.0, goes_on)
              (record {
                bytes = more.bytes ∙ append_assoc read (c ∷ []) (next_line rounds q).0;
                left = more.left;
                valid = more.valid;
              })
      ]

  -- With a line waiting, `uart_readline` stores the first line, cut to the `buffer_size - 1` characters
  -- that leave room for the NUL, and keeps the rest for the next call.
  pub uart_readline_lem :
      (u : Uart) (buffer_size : ℕ)
      → Chars.IsValid (rx u uart_index)
      → (rx u uart_index).lines ≢ 0
      → 0 < buffer_size
      → buffer_size < u32_mod
      → let (line, rest) = next_line (buffer_size - 1) (waiting u uart_index) in
        (read : List ℕ) × ((uart_readline u uart_index buffer_size).0 ≡ some read)
        × Line uart_index line rest read (uart_readline u uart_index buffer_size).1
  unfolding uart_readline
  uart_readline_lem u buffer_size v some_line positive small =
      let limit : sub32 buffer_size 1 ≡ buffer_size - 1 = omega arith in
      let (read, u') = read_chars u uart_index (buffer_size - 1) [] in
      (
        read,
        rw
            (
              limit,
              lt→not-leb num_uarts uart_index port,
              ne→not-== (rx u uart_index).lines 0 some_line,
            )
            refl,
        rw
            (
              limit,
              lt→not-leb num_uarts uart_index port,
              ne→not-== (rx u uart_index).lines 0 some_line,
            )
            (read_chars-Line (buffer_size - 1) u [] (waiting u uart_index) v refl),
      )

-- With no line waiting, or no such port, nothing is read.
pub uart_readline-none :
    (u : Uart) (uart_index buffer_size : ℕ)
    → (num_uarts ≤ uart_index) ⊎ ((rx u uart_index).lines ≡ 0)
    → uart_readline u uart_index buffer_size ≡ (none, u)
unfolding uart_readline
uart_readline-none u uart_index buffer_size (inl wrong) = rw (le→leb num_uarts uart_index wrong)
uart_readline-none u uart_index buffer_size (inr no_line) =
    elim (Bool-cases (leb num_uarts uart_index)) [
      | inl wrong ↦ rw wrong
      | inr port ↦ rw (port, eq→== (rx u uart_index).lines 0 no_line)
    ]

-- No character is lost or changed in a line that is taken out.
pub next_line-append : (n : ℕ) (q : List ℕ) → let (line, rest) = next_line n q in line ++ rest ≡ q
unfolding next_line
next_line-append zero q = refl
next_line-append (suc n) [] = refl
next_line-append (suc n) (c ∷ q) = elim (Bool-cases (c == newline)) [
  | inl ends ↦ rw ends
  | inr goes_on ↦ rw goes_on (ap (λ l. c ∷ l) (next_line-append n q))
]
