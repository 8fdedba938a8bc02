-- ===== src/Uart.antt =====
-- The two serial ports of os/drivers/uart.c: the characters received, in the ring buffers of
-- common/circular_buffer.c, and what is printed. The registers of the ports are left out: a character
-- received is an argument, and a character sent is put at the end of `sent`.
pub mod Format
pub mod Init
pub mod Lines
pub mod Port
pub mod Print
pub mod Printf
pub mod Sending
pub mod Typed
pub mod Numbers
mod Tests
use kernel_team_project.Base.{
  ℕ, zero, suc, ◌+◌, ◌-◌, ◌/◌, ◌%◌, Bool, Option, none, some, List, [], ◌∷◌, ◌++◌, ◌&&◌, ◌==◌, ltb,
  leb, if◌then◌else◌, sub32, u32_mod,
}
use kernel_team_project.Ring.{CharBuffer, newline, char_push, char_pop}

-- `uart0_rx_buffer`, `uart1_rx_buffer` and the characters sent by `uart_putc`.
pub record Uart : Type 0 where
  pub rx0 : CharBuffer
  pub rx1 : CharBuffer
  pub sent : List ℕ

-- `uart_buffers[uart_index]`, for the indices that the functions let through.
abbrev pub rx : Uart → ℕ → CharBuffer
rx u uart_index = if uart_index == 0 then u.rx0 else u.rx1

abbrev pub set_rx : Uart → ℕ → CharBuffer → Uart
set_rx u uart_index b = if uart_index == 0 then record u { rx0 = b } else record u { rx1 = b }

-- The number of elements of `uart_buffers`.
abbrev pub num_uarts : ℕ
num_uarts = 2

abbrev pub carriage_return : ℕ
carriage_return = 13

-- `uart_putc`: a newline is sent as "\r\n".
unfoldable pub uart_putc : Uart → (c : ℕ) → Uart
uart_putc u c = record u {
  sent = u.sent ++ (if c == newline then carriage_return ∷ newline ∷ [] else c ∷ []);
}

unfoldable pub uart_puts : Uart → (str : List ℕ) → Uart
uart_puts u [] = u
uart_puts u (c ∷ str) = let rest = uart_puts (uart_putc u c) str in if c == 0 then u else rest

-- What the interrupt handlers make of a character.
abbrev pub received : ℕ → ℕ
received c = if c == carriage_return then newline else c

-- `handle_uart0_irq`, for the character that `uart_getc` returns: it is echoed and stored.
unfoldable pub handle_uart0_irq : Uart → (c : ℕ) → Uart
handle_uart0_irq u c = record (uart_putc u (received c)) { rx0 = (char_push u.rx0 (received c)).1 }

-- `handle_uart1_irq`: there is no echo.
unfoldable pub handle_uart1_irq : Uart → (c : ℕ) → Uart
handle_uart1_irq u c = record u { rx1 = (char_push u.rx1 (received c)).1 }

-- `uart_getchar`: the character that is stored through `c`, `none` where the function returns 0.
unfoldable pub uart_getchar : Uart → (uart_index : ℕ) → Option ℕ × Uart
uart_getchar u uart_index =
    let (out, b) = char_pop (rx u uart_index) in
    if leb num_uarts uart_index then (none, u) else (out, set_rx u uart_index b)

-- One round of the loop of `uart_readline`, once a character has been asked for; `next` is the loop
-- behind it.
unfoldable pub read_char :
    (read : List ℕ) → (u : Uart) → (next : List ℕ → List ℕ × Uart) → Option ℕ → List ℕ × Uart
read_char read u next none = (read, u)
read_char read u next (some c) = if c == newline then (read ++ c ∷ [], u) else next (read ++ c ∷ [])

-- The loop of `uart_readline`, for the rounds that `i < buffer_size - 1` still lets through.
unfoldable pub read_chars : Uart → (uart_index rounds : ℕ) → (read : List ℕ) → List ℕ × Uart
read_chars u uart_index zero read = (read, u)
read_chars u uart_index (suc rounds) read =
    let (out, u') = uart_getchar u uart_index in
    read_char read u' (λ r. read_chars u' uart_index rounds r) out

-- `uart_readline(uart_index, buffer, buffer_size)`: what is stored in `buffer`, without the NUL at the
-- end, and the ports afterwards; `none` where 0 is returned with nothing stored. The result of the
-- function is the length of what is stored.
unfoldable pub uart_readline : Uart → (uart_index buffer_size : ℕ) → Option (List ℕ) × Uart
uart_readline u uart_index buffer_size =
    let (read, u') = read_chars u uart_index (sub32 buffer_size 1) [] in
    if leb num_uarts uart_index
    then (none, u)
    else if (rx u uart_index).lines == 0
    then (none, u)
    else (some read, u')

-- "0123456789abcdef"[d]
abbrev pub digit_char : ℕ → ℕ
digit_char d = if ltb d 10 then b'0' + d else b'a' + (d - 10)

-- The loop of `print_number` that stores the digits, the lowest one first. A round divides by a base of
-- two or more, so the number itself is fuel enough.
unfoldable pub low_digits : (base fuel temp_num : ℕ) → List ℕ
low_digits base zero temp_num = []
low_digits base (suc fuel) temp_num =
    let rest = low_digits base fuel (temp_num / base) in
    if ltb 0 temp_num then digit_char (temp_num % base) ∷ rest else []

-- The string turned round.
unfoldable pub reversed : List ℕ → List ℕ
reversed [] = []
reversed (c ∷ s) = reversed s ++ c ∷ []

-- What `print_number(num, base, is_signed)` sends. `num` is an `int32_t` as its bit pattern.
unfoldable pub print_number : (num base : ℕ) → (is_signed : Bool) → List ℕ
print_number num base is_signed =
    let is_negative = leb 0x80000000 num && (base == 10) && is_signed in
    let temp_num : ℕ = if is_negative then u32_mod - num else num in
    let digits = low_digits base temp_num temp_num in
    if num == 0 then b'0' ∷ [] else reversed (if is_negative then digits ++ b'-' ∷ [] else digits)
