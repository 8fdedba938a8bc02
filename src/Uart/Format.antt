-- ===== src/Uart/Format.antt =====
-- The format that `uart_port_init` of os/drivers/uart.c sets, and when it returns.
use kernel_team_project.Base.{
  ℕ, suc, ◌+◌, ◌*◌, ◌%◌, ◌<◌, ◌≡◌, ◌∙◌, ap, refl, Bool, true, ◌==◌, ==→eq, some, all_below,
  all_below-lt, arith, bit_and, bit_or, ◌<<◌, bit_and_low, add32, sub32,
}
use kernel_team_project.Regs.{Bus, Machine, ◌>>◌, run-bind, masked}
use kernel_team_project.Regs.Poll.{EndsAt, wait_while_found, after}
use kernel_team_project.Uart.Port.{
  line_control, reset_port, set_fifos, set_protocol, uart_port_init, sysc_off, syss_off, lcr_off,
  mdr1_off,
}

-- The fields of the format, next to one another.
abbrev pub format : (num_stop_bits parity_en parity_type char_length : ℕ) → ℕ
format num_stop_bits parity_en parity_type char_length =
    parity_type % 2 * 16 + parity_en % 2 * 8 + num_stop_bits % 2 * 4 + sub32 char_length 5 % 4

-- The same with the operations of the source, on fields that are small enough.
abbrev packed : (t p s l : ℕ) → ℕ
packed t p s l = bit_or (bit_or (bit_or (bit_or 0 (t << 4)) (p << 3)) (s << 2)) l

abbrev agrees : (t p s l : ℕ) → Bool
agrees t p s l = packed t p s l == t * 16 + p * 8 + s * 4 + l

agrees_table :
    all_below 2 (λ t. all_below 2 (λ p. all_below 2 (λ s. all_below 4 (agrees t p s)))) ≡ true
agrees_table = refl

packed_lem :
    (t p s l : ℕ) → t < 2 → p < 2 → s < 2 → l < 4 → packed t p s l ≡ t * 16 + p * 8 + s * 4 + l
packed_lem t p s l ht hp hs hl = ==→eq _ _ (
    all_below-lt 4 (agrees t p s) l
      (all_below-lt 2 (λ s. all_below 4 (agrees t p s)) s
        (all_below-lt 2 (λ p. all_below 2 (λ s. all_below 4 (agrees t p s))) p
          (all_below-lt 2 (λ t. all_below 2 (λ p. all_below 2 (λ s. all_below 4 (agrees t p s)))) t
            agrees_table ht)
          hp)
        hs)
      hl)

-- The word holds the length of a character less 5 in bits 0 and 1, the lowest bit of the number of stop
-- bits in bit 2, and the lowest bits of the two numbers for the parity in bits 3 and 4: whatever the
-- arguments, no field runs into another, and the bits above are clear.
pub line_control_fields :
    (num_stop_bits parity_en parity_type char_length : ℕ)
    → line_control num_stop_bits parity_en parity_type char_length
      ≡ format num_stop_bits parity_en parity_type char_length
unfolding line_control
line_control_fields s p t l =
    rw (bit_and_low 1 t, bit_and_low 1 p, bit_and_low 1 s, bit_and_low 2 (sub32 l 5))
      (packed_lem (t % 2) (p % 2) (s % 2) (sub32 l 5 % 4) (omega arith) (omega arith) (omega arith)
        (omega arith))

module _ {D : Type 0} (bus : Bus D) where
  -- The device when the reset has been asked for.
  abbrev pub resetting : (base_addr : ℕ) → D → D
  resetting base_addr d =
      let addr = add32 base_addr sysc_off in
      let (v, d') = bus.load addr d in bus.store addr (masked v 0x2 0x2) d'

  -- The device when the format and the mode have been written.
  abbrev pub set : (base_addr format : ℕ) → D → D
  set base_addr format d =
      bus.store (add32 base_addr mdr1_off) 0 (bus.store (add32 base_addr lcr_off) format d)

  after_reset :
      (base_addr f : ℕ) (m : Machine D)
      → (d : D) × ((set_fifos bus base_addr >> set_protocol bus base_addr f) m
          ≡ some (tt, record m { dev = set base_addr f d }))
  unfolding set_fifos set_protocol
  after_reset base_addr f m = (_, refl)

  -- Where the port says after `k` reads in vain that its reset is done, and the fuel lets it read once
  -- more, the set-up of a port returns, with the format that the arguments ask for and the mode "16x"
  -- as the last two registers that are written. It prints nothing.
  pub uart_port_init_lem :
      (k fuel base_addr baud_rate stop_bit_en num_stop_bits parity_en parity_type char_length : ℕ)
      (m : Machine D)
      → k < fuel
      → EndsAt bus base_addr syss_off (λ v. bit_and v 0x1 == 0) k (resetting base_addr m.dev)
      → (d : D) × (uart_port_init bus fuel base_addr baud_rate stop_bit_en num_stop_bits parity_en
            parity_type char_length m
          ≡ some (
            tt,
            record m {
              dev = set base_addr (format num_stop_bits parity_en parity_type char_length) d;
            },
          ))
  unfolding uart_port_init reset_port
  uart_port_init_lem k fuel base b sb s p t l m lt reset =
      let f = line_control s p t l in
      let waited : Machine D = record m {
        dev = after bus (add32 base syss_off) (suc k) (resetting base m.dev);
      } in
      let (d, e) = after_reset base f waited in
      (
        d,
        run-bind (reset_port bus fuel base) (λ _. set_fifos bus base >> set_protocol bus base f)
              (wait_while_found bus base syss_off (λ v. bit_and v 0x1 == 0) k fuel
                (record m { dev = resetting base m.dev }) lt reset)
            ∙ e
            ∙ ap (λ w. some (tt, record m { dev = set base w d })) (line_control_fields s p t l),
      )
