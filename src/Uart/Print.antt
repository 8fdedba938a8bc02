-- ===== src/Uart/Print.antt =====
-- `uart_vprintf` of os/drivers/uart.c over the registers of the port, and `log_message` of common/utils.h,
-- which calls it: the text that a format makes of its arguments, and its characters one by one. An
-- argument that is missing, or of another type, prints nothing here; a literal holds no NUL, and none ends
-- in a `%`.
use Prim.Native.String.{String}
use Prim.Native.Char.{code}
use kernel_team_project.Base.{
  ℕ, Bool, true, false, ◌==◌, if◌then◌else◌, List, [], ◌∷◌, ◌++◌, leb, bit_and, ◌%◌, refl,
}
use kernel_team_project.Regs.{Bus, Io, skip, ◌>>◌, log_level}
use kernel_team_project.Regs.Ends.{Ends, EndsInTime, wait_while-Ends, then-Ends, if-Ends}
use kernel_team_project.Ring.{newline}
use kernel_team_project.Uart.{print_number, carriage_return}
use kernel_team_project.Uart.Printf.{Arg, num, str}
use kernel_team_project.Uart.Port.{uart0_base, lsr_off, send_char, port_putc}

-- The characters of a literal.
unfoldable pub codes : String → List ℕ
codes String.[] = []
codes (String.◌∷◌ c s) = code c ∷ codes s

-- What a conversion prints for its argument.
unfoldable pub converted : (conversion : ℕ) → Arg → List ℕ
converted k (num n) =
    if k == b'd'
    then print_number n 10 true
    else if k == b'u'
    then print_number n 10 false
    else if k == b'x'
    then print_number n 16 true
    else if k == b'c'
    then n % 256 ∷ []
    else []
converted k (str s) = if k == b's' then s else []

abbrev pub is_conversion : ℕ → Bool
is_conversion k =
    if k == b'd'
    then true
    else if k == b'u'
    then true
    else if k == b'x'
    then true
    else if k == b's'
    then true
    else k == b'c'

-- The text of a format; `percent` says that the last character was a `%`.
unfoldable pub formatted : (percent : Bool) → (fmt : List ℕ) → List Arg → List ℕ
formatted percent [] args = []
formatted false (c ∷ fmt) args =
    let literal = c ∷ formatted false fmt args in
    let directive = formatted true fmt args in if c == b'%' then directive else literal
formatted true (c ∷ fmt) [] =
    let rest = formatted false fmt [] in if is_conversion c then rest else c ∷ rest
formatted true (c ∷ fmt) (a ∷ args) =
    let taken = converted c a ++ formatted false fmt args in
    let literal = c ∷ formatted false fmt (a ∷ args) in if is_conversion c then taken else literal

module _ {D : Type 0} (bus : Bus D) (fuel : ℕ) where
  unfoldable pub send_all : List ℕ → Io D (Unit {0})
  send_all [] = skip
  send_all (c ∷ s) = do port_putc bus fuel c; send_all s

  unfoldable pub port_printf : (fmt : String) → List Arg → Io D (Unit {0})
  port_printf fmt args = send_all (formatted false (codes fmt) args)

  unfoldable pub port_log : (level : ℕ) → (fmt : String) → List Arg → Io D (Unit {0})
  port_log level fmt args = if leb level log_level then port_printf fmt args else skip

  -- The sender can take a character in time, whatever the state of the device.
  abbrev pub CanSend : Type 0
  CanSend = EndsInTime bus fuel uart0_base lsr_off (λ v. bit_and v 0x20 == 0)

  module _ (sender : CanSend) where
    send_char-Ends : (c : ℕ) → Ends (send_char bus fuel c)
    unfolding send_char
    send_char-Ends c m = then-Ends (wait_while-Ends bus fuel _ _ _ sender) (λ m. (_, refl)) _

    port_putc-Ends : (c : ℕ) → Ends (port_putc bus fuel c)
    unfolding port_putc
    port_putc-Ends c =
        then-Ends (if-Ends (c == newline) (send_char-Ends carriage_return) (λ m. (_, refl)))
          (send_char-Ends c)

    send_all-Ends : (s : List ℕ) → Ends (send_all s)
    unfolding send_all
    send_all-Ends [] = λ m. (_, refl)
    send_all-Ends (c ∷ s) = then-Ends (port_putc-Ends c) (send_all-Ends s)

    -- Then a message is printed and the call returns.
    pub port_printf-Ends : (fmt : String) (args : List Arg) → Ends (port_printf fmt args)
    unfolding port_printf
    port_printf-Ends fmt args = send_all-Ends (formatted false (codes fmt) args)

    pub port_log-Ends :
        (level : ℕ) (fmt : String) (args : List Arg) → Ends (port_log level fmt args)
    unfolding port_log
    port_log-Ends level fmt args =
        if-Ends (leb level log_level) (port_printf-Ends fmt args) (λ m. (_, refl))
