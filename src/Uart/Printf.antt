-- ===== src/Uart/Printf.antt =====
-- `uart_vprintf` of os/drivers/uart.c on the ports without registers.
use kernel_team_project.Base.{
  ℕ, ◌%◌, ◌≡◌, ◌≢◌, ◌∙◌, refl, true, false, Option, none, some, ◌>>=◌, List, [], ◌∷◌, ◌==◌,
  ne→not-==, if◌then◌else◌,
}
use kernel_team_project.Uart.{Uart, uart_putc, uart_puts, print_number}

-- An argument: a number of 32 bits or a string.
pub data Arg : Type 0 where
  num : (n : ℕ) → Arg
  str : (s : List ℕ) → Arg

-- `va_arg`; `none` is an argument that is missing or of another type, whose value is not defined.
abbrev pub take_num : List Arg → Option (ℕ × List Arg)
take_num (num n ∷ args) = some (n, args)
take_num _ = none

abbrev pub take_str : List Arg → Option (List ℕ × List Arg)
take_str (str s ∷ args) = some (s, args)
take_str _ = none

-- The `switch` on the character behind a "%". A NUL there is sent, and the loop goes on behind the end
-- of the format, which is `none` as well.
unfoldable pub directive : Uart → (d : ℕ) → List Arg → Option (Uart × List Arg)
directive u d args =
    if d == b'd'
    then (do (n, rest) ← take_num args; some (uart_puts u (print_number n 10 true), rest))
    else if d == b'u'
    then (do (n, rest) ← take_num args; some (uart_puts u (print_number n 10 false), rest))
    else if d == b'x'
    then (do (n, rest) ← take_num args; some (uart_puts u (print_number n 16 true), rest))
    else if d == b's'
    then (do (s, rest) ← take_str args; some (uart_puts u s, rest))
    else if d == b'c'
    then (do (n, rest) ← take_num args; some (uart_putc u (n % 256), rest))
    else if d == 0
    then none
    else some (uart_putc u d, args)

-- The loop. The end of the list is the NUL, as a 0 in it is.
unfoldable pub uart_vprintf : Uart → (fmt : List ℕ) → List Arg → Option Uart
uart_vprintf u [] args = some u
uart_vprintf u (c ∷ []) args =
    if c == 0 then some u else if c == b'%' then none else some (uart_putc u c)
uart_vprintf u (c ∷ d ∷ fmt) args =
    let plain = uart_vprintf (uart_putc u c) (d ∷ fmt) args in
    let behind = λ (p : Uart × List Arg). uart_vprintf p.0 fmt p.1 in
    if c == 0 then some u else if c == b'%' then directive u d args >>= behind else plain

-- The parts of a message.
pub data Piece : Type 0 where
  literal : (c : ℕ) → c ≢ 0 → c ≢ b'%' → Piece
  percent : Piece
  decimal : (n : ℕ) → Piece
  unsigned : (n : ℕ) → Piece
  hexadecimal : (n : ℕ) → Piece
  text : (s : List ℕ) → Piece
  character : (n : ℕ) → Piece

-- The format and the arguments of a message, and the ports when its parts have been sent.
abbrev pub format_of : List Piece → List ℕ
format_of [] = []
format_of (literal c _ _ ∷ ps) = c ∷ format_of ps
format_of (percent ∷ ps) = b'%' ∷ b'%' ∷ format_of ps
format_of (decimal n ∷ ps) = b'%' ∷ b'd' ∷ format_of ps
format_of (unsigned n ∷ ps) = b'%' ∷ b'u' ∷ format_of ps
format_of (hexadecimal n ∷ ps) = b'%' ∷ b'x' ∷ format_of ps
format_of (text s ∷ ps) = b'%' ∷ b's' ∷ format_of ps
format_of (character n ∷ ps) = b'%' ∷ b'c' ∷ format_of ps

abbrev pub args_of : List Piece → List Arg
args_of [] = []
args_of (literal c _ _ ∷ ps) = args_of ps
args_of (percent ∷ ps) = args_of ps
args_of (decimal n ∷ ps) = num n ∷ args_of ps
args_of (unsigned n ∷ ps) = num n ∷ args_of ps
args_of (hexadecimal n ∷ ps) = num n ∷ args_of ps
args_of (text s ∷ ps) = str s ∷ args_of ps
args_of (character n ∷ ps) = num n ∷ args_of ps

abbrev pub say : Uart → List Piece → Uart
say u [] = u
say u (literal c _ _ ∷ ps) = say (uart_putc u c) ps
say u (percent ∷ ps) = say (uart_putc u b'%') ps
say u (decimal n ∷ ps) = say (uart_puts u (print_number n 10 true)) ps
say u (unsigned n ∷ ps) = say (uart_puts u (print_number n 10 false)) ps
say u (hexadecimal n ∷ ps) = say (uart_puts u (print_number n 16 true)) ps
say u (text s ∷ ps) = say (uart_puts u s) ps
say u (character n ∷ ps) = say (uart_putc u (n % 256)) ps

literal_step :
    (u : Uart) (c : ℕ) (fmt : List ℕ) (args : List Arg)
    → c ≢ 0
    → c ≢ b'%'
    → uart_vprintf u (c ∷ fmt) args ≡ uart_vprintf (uart_putc u c) fmt args
unfolding uart_vprintf
literal_step u c [] args c0 cp = rw (ne→not-== c 0 c0, ne→not-== c b'%' cp)
literal_step u c (d ∷ fmt) args c0 cp = rw (ne→not-== c 0 c0, ne→not-== c b'%' cp)

-- Printing the format of a message with its arguments sends its parts, one after another, and never
-- reads an argument that is not there.
pub uart_vprintf_lem :
    (ps : List Piece) (u : Uart) → uart_vprintf u (format_of ps) (args_of ps) ≡ some (say u ps)
unfolding uart_vprintf directive
uart_vprintf_lem [] u = refl
uart_vprintf_lem (literal c c0 cp ∷ ps) u =
    literal_step u c (format_of ps) (args_of ps) c0 cp ∙ uart_vprintf_lem ps (uart_putc u c)
uart_vprintf_lem (percent ∷ ps) u = uart_vprintf_lem ps (uart_putc u b'%')
uart_vprintf_lem (decimal n ∷ ps) u = uart_vprintf_lem ps (uart_puts u (print_number n 10 true))
uart_vprintf_lem (unsigned n ∷ ps) u = uart_vprintf_lem ps (uart_puts u (print_number n 10 false))
uart_vprintf_lem (hexadecimal n ∷ ps) u = uart_vprintf_lem ps (uart_puts u (print_number n 16 true))
uart_vprintf_lem (text s ∷ ps) u = uart_vprintf_lem ps (uart_puts u s)
uart_vprintf_lem (character n ∷ ps) u = uart_vprintf_lem ps (uart_putc u (n % 256))
