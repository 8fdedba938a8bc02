-- ===== src/Uart/Typed.antt =====
-- Lines typed at the first port of os/drivers/uart.c.
use kernel_team_project.Base.{
  ℕ, zero, suc, ◌+◌, ◌-◌, ◌<◌, ◌≤◌, ◌≡◌, ◌≢◌, ◌∙◌, refl, sym, ap, some, List, [], ◌∷◌, ◌++◌, arith,
  length, length-append, ne→not-==, u32_mod,
}
use mathlib.Core.List.{append_assoc, append-nil}
use kernel_team_project.Ring.{newline}
use kernel_team_project.Ring.Chars
use kernel_team_project.Ring.Queue
use kernel_team_project.Uart.{Uart, rx, received, carriage_return, handle_uart0_irq, uart_readline}
use kernel_team_project.Uart.Lines.{waiting, next_line, uart_readline_lem}

-- The characters arrive one after the other.
unfoldable pub type_in : Uart → List ℕ → Uart
type_in u [] = u
type_in u (c ∷ s) = type_in (handle_uart0_irq u c) s

-- Neither a carriage return nor a newline is among the characters.
abbrev pub Plain : List ℕ → Type 0
Plain [] = Unit
Plain (c ∷ s) = ((c ≢ carriage_return) × (c ≢ newline)) × Plain s

-- A character is stored behind those that wait.
irq-waiting :
    (u : Uart) (c : ℕ)
    → Chars.IsValid (rx u 0)
    → length (waiting u 0) < 512
    → (waiting (handle_uart0_irq u c) 0 ≡ waiting u 0 ++ received c ∷ [])
      × Chars.IsValid (rx (handle_uart0_irq u c) 0)
unfolding handle_uart0_irq Queue.push
irq-waiting u c v room = (
  ap (λ r. r.1) (Chars.push_refines (received c) v)
      ∙ rw (ne→not-== (length (waiting u 0)) 512 (omega arith)),
  Chars.push-IsValid (received c) v,
)

type_in-waiting :
    (s : List ℕ) (u : Uart)
    → Chars.IsValid (rx u 0)
    → Plain s
    → length (waiting u 0) + length s ≤ 512
    → (waiting (type_in u s) 0 ≡ waiting u 0 ++ s) × Chars.IsValid (rx (type_in u s) 0)
unfolding type_in
type_in-waiting [] u v plain room = (sym (append-nil (waiting u 0)), v)
type_in-waiting (c ∷ s) u v plain room =
    let step = irq-waiting u c v (omega arith) in
    let same : received c ≡ c = rw (ne→not-== c carriage_return plain.0.0) refl in
    let now : waiting (handle_uart0_irq u c) 0 ≡ waiting u 0 ++ c ∷ [] =
      step.0 ∙ ap (λ (d : ℕ). waiting u 0 ++ d ∷ []) same in
    let rest =
      type_in-waiting s (handle_uart0_irq u c) step.1 plain.1
        (omega (arith, room, ap length now, length-append (waiting u 0) (c ∷ []))) in
    (rest.0 ∙ ap (λ l. l ++ s) now ∙ append_assoc (waiting u 0) (c ∷ []) s, rest.1)

next_line-Plain :
    (s : List ℕ) (n : ℕ)
    → Plain s
    → length s < n
    → next_line n (s ++ newline ∷ []) ≡ (s ++ newline ∷ [], [])
unfolding next_line
next_line-Plain s zero plain h = absurd (omega arith)
next_line-Plain [] (suc n) plain h = refl
next_line-Plain (c ∷ s) (suc n) plain h =
    rw (ne→not-== c newline plain.0.1, next_line-Plain s n plain.1 (omega arith)) refl

type_in-snoc :
    (s : List ℕ) (u : Uart) (c : ℕ) → type_in u (s ++ c ∷ []) ≡ handle_uart0_irq (type_in u s) c
unfolding type_in
type_in-snoc [] u c = refl
type_in-snoc (d ∷ s) u c = type_in-snoc s (handle_uart0_irq u d) c

-- What the reader gets, and an empty port behind it.
pub record Echoed (u : Uart) (buffer_size : ℕ) (line : List ℕ) : Type 0 where
  pub read : (uart_readline u 0 buffer_size).0 ≡ some line
  pub empty : waiting (uart_readline u 0 buffer_size).1 0 ≡ []

-- A line of fewer than 512 characters, typed at an empty port and ended with a carriage return, is
-- what `uart_readline` stores, with a newline at its end, if the buffer has room for both and a NUL.
pub readline-type_in :
    (u : Uart) (s : List ℕ) (buffer_size : ℕ)
    → Chars.IsValid (rx u 0)
    → waiting u 0 ≡ []
    → Plain s
    → length s < 512
    → length s + 2 ≤ buffer_size
    → buffer_size < u32_mod
    → Echoed (type_in u (s ++ carriage_return ∷ [])) buffer_size (s ++ newline ∷ [])
readline-type_in u s buffer_size v empty plain short room small =
    let typed = type_in-waiting s u v plain (omega (arith, short, ap length empty)) in
    let before : waiting (type_in u s) 0 ≡ s = typed.0 ∙ ap (λ l. l ++ s) empty in
    let step =
      irq-waiting (type_in u s) carriage_return typed.1 (omega (arith, short, ap length before)) in
    let t = handle_uart0_irq (type_in u s) carriage_return in
    let now : waiting t 0 ≡ s ++ newline ∷ [] = step.0 ∙ ap (λ l. l ++ newline ∷ []) before in
    let some_line : (rx t 0).lines ≢ 0 = λ e. absurd (
      omega
        (arith, e, step.1.counted, ap Chars.count_lines now, Chars.count_lines-snoc s newline)) in
    let (read, e, line) =
      uart_readline_lem 0 (omega arith) t buffer_size step.1 some_line (omega arith) small in
    let cut : next_line (buffer_size - 1) (waiting t 0) ≡ (s ++ newline ∷ [], []) =
      ap (next_line (buffer_size - 1)) now
      ∙ next_line-Plain s (buffer_size - 1) plain (omega arith) in
    rw (type_in-snoc s u carriage_return) (record {
      read = e ∙ ap some (line.bytes ∙ ap (λ r. r.0) cut);
      empty = line.left ∙ ap (λ r. r.1) cut;
    })
