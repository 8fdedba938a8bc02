-- ===== src/Uart/Tests.antt =====
-- The theorems about the serial ports at concrete characters and numbers.
use kernel_team_project.Base.{
  ℕ, ◌≡◌, refl, true, inr, some, List, [], ◌∷◌, arith, update, ◌++◌, ◌==◌, if◌then◌else◌,
}
use kernel_team_project.Regs.{Bus}
use kernel_team_project.Ring.{CharBuffer, newline}
use kernel_team_project.Ring.Chars
use kernel_team_project.Uart.{Uart, uart_readline, print_number, uart_puts, carriage_return}
use kernel_team_project.Uart.Port.{uart0_base, port_puts}
use kernel_team_project.Uart.Sending.{Sender, Sends, port_puts_refines}
use kernel_team_project.Uart.Lines.{next_line, Line, uart_readline_lem}
use kernel_team_project.Uart.Typed.{type_in, Echoed, readline-type_in}
use kernel_team_project.Uart.Numbers.{IsNumeral, print_number_lem}

abbrev empty : CharBuffer
empty = record { buffer = λ _. 0; head = 511; tail = 511; size = 0; lines = 0 }

empty-IsValid : Chars.IsValid empty
unfolding Chars.count_lines
empty-IsValid = omega arith

-- "a\n" waits at the second port.
abbrev ports : Uart
ports = record {
  rx0 = empty;
  rx1 = record {
    buffer = update (update (λ _. 0) 511 b'a') 0 newline;
    head = 511;
    tail = 1;
    size = 2;
    lines = 1;
  };
  sent = [];
}

rx1-IsValid : Chars.IsValid ports.rx1
unfolding Chars.count_lines
rx1-IsValid = omega arith

uart_readline_lem_example :
    (read : List ℕ) × ((uart_readline ports 1 9).0 ≡ some read)
    × Line 1 (b'a' ∷ newline ∷ []) [] read (uart_readline ports 1 9).1
unfolding next_line
uart_readline_lem_example =
    uart_readline_lem 1 (omega arith) ports 9 rx1-IsValid (ground arith) (omega arith) (omega arith)

readline-type_in_example :
    Echoed (type_in ports (b'h' ∷ b'i' ∷ carriage_return ∷ [])) 4 (b'h' ∷ b'i' ∷ newline ∷ [])
readline-type_in_example =
    readline-type_in ports (b'h' ∷ b'i' ∷ []) 4 empty-IsValid refl (ground arith) (omega arith)
      (omega arith) (omega arith)

print_number_lem_example : IsNumeral 16 0xFFFFFFFF (print_number 0xFFFFFFFF 16 true)
print_number_lem_example = print_number_lem 0xFFFFFFFF 16 true (inr refl) refl

-- A port whose status always says that its reset is done and that it can take a character, and the
-- characters that it has been given.
abbrev ready_port : Bus (List ℕ)
ready_port = record {
  load = λ addr d. (0x21, d);
  store = λ addr value d. if addr == uart0_base then d ++ value ∷ [] else d;
}

abbrev ready_sender : Sender ready_port 1
ready_sender = record {
  sent = λ d. d;
  delay = λ d. 0;
  in_time = λ d. omega arith;
  becomes_ready = λ d. record { goes_on = λ i h. absurd (omega arith); ends = refl };
  read_keeps = λ d. refl;
  write_sends = λ c d. refl;
}

port_puts_refines_example :
    Sends ready_port 1 ready_sender
      (port_puts ready_port 1 (b'o' ∷ b'k' ∷ newline ∷ []))
      (record { dev = []; console = [] })
      (uart_puts ports (b'o' ∷ b'k' ∷ newline ∷ []))
port_puts_refines_example =
    port_puts_refines ready_port 1 ready_sender ports (b'o' ∷ b'k' ∷ newline ∷ [])
      (record { dev = []; console = [] }) refl
