-- ===== src/Uart/Port.antt =====
-- The registers of a serial port in os/drivers/uart.c and uart.h, on any device: its set-up, and the
-- characters that are sent and received. The waits have no bound in the source and take fuel.
use kernel_team_project.Base.{
  ℕ, ◌==◌, if◌then◌else◌, List, [], ◌∷◌, bit_and, bit_or, ◌<<◌, ◌%◌, sub32,
}
use kernel_team_project.Regs.{
  Bus, Io, pure, skip, ◌>>=◌, ◌>>◌, reg32_write, reg32_write_masked, reg32_read, reg32_read_masked,
  wait_while,
}
use kernel_team_project.Ring.{newline}
use kernel_team_project.Uart.{carriage_return}

abbrev pub uart0_base : ℕ
uart0_base = 0x44E09000

abbrev pub uart1_base : ℕ
uart1_base = 0x48022000

-- Several registers share an offset; LCR says which of them is meant.
abbrev pub thr_off : ℕ
thr_off = 0x00

abbrev pub rhr_off : ℕ
rhr_off = 0x00

abbrev pub dll_off : ℕ
dll_off = 0x00

abbrev pub ier_off : ℕ
ier_off = 0x04

abbrev pub dlh_off : ℕ
dlh_off = 0x04

abbrev pub efr_off : ℕ
efr_off = 0x08

abbrev pub fcr_off : ℕ
fcr_off = 0x08

abbrev pub lcr_off : ℕ
lcr_off = 0x0C

abbrev pub mcr_off : ℕ
mcr_off = 0x10

abbrev pub lsr_off : ℕ
lsr_off = 0x14

abbrev pub tlr_off : ℕ
tlr_off = 0x1C

abbrev pub mdr1_off : ℕ
mdr1_off = 0x20

abbrev pub scr_off : ℕ
scr_off = 0x40

abbrev pub sysc_off : ℕ
sysc_off = 0x54

abbrev pub syss_off : ℕ
syss_off = 0x58

-- The last value of LCR: the format of a character.
unfoldable pub line_control : (num_stop_bits parity_en parity_type char_length : ℕ) → ℕ
line_control num_stop_bits parity_en parity_type char_length =
    let lcr = bit_or (bit_or (0 << 7) (0 << 6)) (0 << 5) in
    let lcr = bit_or lcr (bit_and parity_type 0x1 << 4) in
    let lcr = bit_or lcr (bit_and parity_en 0x1 << 3) in
    let lcr = bit_or lcr (bit_and num_stop_bits 0x1 << 2) in
    bit_or lcr (bit_and (sub32 char_length 5) 0x3)

module _ {D : Type 0} (bus : Bus D) where
  -- `uart_port_init` up to the reset.
  unfoldable pub reset_port : (fuel base_addr : ℕ) → Io D (Unit {0})
  reset_port fuel base_addr = do
    reg32_write_masked bus base_addr sysc_off 0x2 0x2
    wait_while bus fuel base_addr syss_off (λ v. bit_and v 0x1 == 0)

  -- The FIFOs, after the reset.
  unfoldable pub set_fifos : (base_addr : ℕ) → Io D (Unit {0})
  set_fifos base_addr = do
    reg32_write bus base_addr sysc_off 0x8
    lcr ← reg32_read bus base_addr lcr_off
    reg32_write bus base_addr lcr_off 0xBF
    efr_bit4 ← reg32_read_masked bus base_addr efr_off 0x10
    reg32_write_masked bus base_addr efr_off 0x10 0x10
    reg32_write bus base_addr lcr_off 0x80
    mcr_bit6 ← reg32_read_masked bus base_addr mcr_off 0x40
    reg32_write_masked bus base_addr mcr_off 0x40 0x40
    reg32_write bus base_addr fcr_off 0x07
    reg32_write bus base_addr lcr_off 0xBF
    reg32_write bus base_addr tlr_off 0x00
    reg32_write bus base_addr scr_off 0x00
    reg32_write_masked bus base_addr efr_off 0x10 efr_bit4
    reg32_write bus base_addr lcr_off 0x80
    reg32_write_masked bus base_addr mcr_off 0x40 mcr_bit6
    reg32_write bus base_addr lcr_off lcr

  -- The speed, the interrupts and, at the end, the format.
  unfoldable pub set_protocol : (base_addr format : ℕ) → Io D (Unit {0})
  set_protocol base_addr format = do
    reg32_write_masked bus base_addr mdr1_off 0x7 0x7
    reg32_write bus base_addr lcr_off 0xBF
    efr_bit4 ← reg32_read_masked bus base_addr efr_off 0x10
    reg32_write_masked bus base_addr efr_off 0x10 0x10
    reg32_write bus base_addr lcr_off 0x00
    reg32_write bus base_addr ier_off 0x00
    reg32_write bus base_addr lcr_off 0xBF
    reg32_write bus base_addr dll_off 0x1A
    reg32_write bus base_addr dlh_off 0x00
    reg32_write bus base_addr lcr_off 0x00
    reg32_write bus base_addr ier_off 0x01
    reg32_write bus base_addr lcr_off 0xBF
    reg32_write_masked bus base_addr efr_off 0x10 efr_bit4
    reg32_write bus base_addr lcr_off format
    reg32_write bus base_addr mdr1_off 0x0

  -- Two of the arguments are not used.
  unfoldable pub uart_port_init :
      (fuel base_addr baud_rate stop_bit_en num_stop_bits parity_en parity_type char_length : ℕ)
      → Io D (Unit {0})
  uart_port_init fuel base_addr baud_rate stop_bit_en num_stop_bits parity_en parity_type
        char_length =
      do
        reset_port fuel base_addr
        set_fifos base_addr
        set_protocol base_addr (line_control num_stop_bits parity_en parity_type char_length)

  -- The end of `uart_putc`: it waits for the register of the sender to be empty and writes it.
  unfoldable pub send_char : (fuel c : ℕ) → Io D (Unit {0})
  send_char fuel c = do
    wait_while bus fuel uart0_base lsr_off (λ v. bit_and v 0x20 == 0)
    reg32_write bus uart0_base thr_off c

  unfoldable pub port_putc : (fuel c : ℕ) → Io D (Unit {0})
  port_putc fuel c = do
    if c == newline then send_char fuel carriage_return else skip
    send_char fuel c

  -- The end of a list stands for the NUL of a string, as a 0 in it does.
  unfoldable pub port_puts : (fuel : ℕ) → (str : List ℕ) → Io D (Unit {0})
  port_puts fuel [] = skip
  port_puts fuel (c ∷ str) =
      let rest = port_puts fuel str in if c == 0 then skip else (do port_putc fuel c; rest)

  -- `_uart_getc`, and `uart_getc` for the port 0; the result is a `char`.
  unfoldable pub port_getc : (fuel uart_base : ℕ) → Io D ℕ
  port_getc fuel uart_base = do
    wait_while bus fuel uart_base lsr_off (λ v. bit_and v 0x1 == 0)
    c ← reg32_read bus uart_base rhr_off
    pure (c % 256)
