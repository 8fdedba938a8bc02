-- ===== src/Uart/Sending.antt =====
-- The characters that `uart_puts` of os/drivers/uart.c puts into the register of the sender are those of
-- the model without registers.
use kernel_team_project.Base.{
  ℕ, zero, suc, ◌<◌, ◌≡◌, ◌∙◌, ap, ap₂, ==→eq, refl, ◌==◌, some, List, [], ◌∷◌, ◌++◌, inl, inr,
  Bool-cases, bit_and, add32,
}
use kernel_team_project.Ring.{newline}
use kernel_team_project.Regs.{Bus, Machine, Io, run-bind, wait_while}
use kernel_team_project.Regs.Poll.{EndsAt, wait_while_found, after}
use kernel_team_project.Uart.{Uart, carriage_return, uart_putc, uart_puts}
use kernel_team_project.Uart.Port.{uart0_base, lsr_off, thr_off, send_char, port_putc, port_puts}

-- A port 0 that can send: what it has been given so far, and how many reads of its status it lets pass
-- before it says that it can take a character. Reads do not change what has been sent.
pub record Sender {D : Type 0} (bus : Bus D) (fuel : ℕ) : Type 0 where
  pub sent : D → List ℕ
  pub delay : D → ℕ
  pub in_time : (d : D) → delay d < fuel
  pub becomes_ready : (d : D) → EndsAt bus uart0_base lsr_off (λ v. bit_and v 0x20 == 0) (delay d) d
  pub read_keeps : (d : D) → sent (bus.load (add32 uart0_base lsr_off) d).1 ≡ sent d
  pub write_sends :
      (c : ℕ) (d : D) → sent (bus.store (add32 uart0_base thr_off) c d) ≡ sent d ++ c ∷ []

append_two : (s : List ℕ) (a b : ℕ) → (s ++ a ∷ []) ++ b ∷ [] ≡ s ++ a ∷ b ∷ []
append_two [] a b = refl
append_two (x ∷ s) a b = ap (λ t. x ∷ t) (append_two s a b)

module _ {D : Type 0} (bus : Bus D) (fuel : ℕ) (sender : Sender bus fuel) where
  open sender use {sent, delay, in_time, becomes_ready, read_keeps, write_sends}

  -- A call that returns, prints no message, and leaves the characters of `u` as those that are sent.
  abbrev pub Sends : Io D (Unit {0}) → Machine D → Uart → Type 0
  Sends call m u = (d : D) × (call m ≡ some (tt, record m { dev = d })) × (sent d ≡ u.sent)

  after_keeps : (n : ℕ) (d : D) → sent (after bus (add32 uart0_base lsr_off) n d) ≡ sent d
  after_keeps zero d = refl
  after_keeps (suc n) d = after_keeps n (bus.load (add32 uart0_base lsr_off) d).1 ∙ read_keeps d

  send_char_lem :
      (c : ℕ) (m : Machine D)
      → (d : D) × (send_char bus fuel c m ≡ some (tt, record m { dev = d }))
        × (sent d ≡ sent m.dev ++ c ∷ [])
  unfolding send_char
  send_char_lem c m =
      let waited = after bus (add32 uart0_base lsr_off) (suc (delay m.dev)) m.dev in
      (
        bus.store (add32 uart0_base thr_off) c waited,
        run-bind (wait_while bus fuel uart0_base lsr_off (λ v. bit_and v 0x20 == 0)) _ (
            wait_while_found bus uart0_base lsr_off (λ v. bit_and v 0x20 == 0) (delay m.dev) fuel m
              (in_time m.dev) (becomes_ready m.dev)),
        write_sends c waited ∙ ap (λ s. s ++ c ∷ []) (after_keeps (suc (delay m.dev)) m.dev),
      )

  port_putc_lem :
      (u : Uart) (c : ℕ) (m : Machine D)
      → sent m.dev ≡ u.sent
      → Sends (port_putc bus fuel c) m (uart_putc u c)
  unfolding port_putc uart_putc
  port_putc_lem u c m same = elim (Bool-cases (c == newline)) [
    | inl line ↦
        let (d, e, s) = send_char_lem carriage_return m in
        let (d', e', s') = send_char_lem c (record m { dev = d }) in
        (
          d',
          rw line
              (run-bind (send_char bus fuel carriage_return) (λ _. send_char bus fuel c) e ∙ e'),
          rw line (
              s'
              ∙ ap (λ t. t ++ c ∷ []) s
              ∙ append_two (sent m.dev) carriage_return c
              ∙ ap₂ (λ t b. t ++ carriage_return ∷ b ∷ []) same (==→eq c newline line)),
        )
    | inr other ↦
        let (d, e, s) = send_char_lem c m in
        (d, rw other e, rw other (s ∙ ap (λ t. t ++ c ∷ []) same))
  ]

  -- Printing a text on a port that can send returns, and gives it the characters that the model without
  -- registers sends, in that order: the text up to its end, with a carriage return before each newline.
  pub port_puts_refines :
      (u : Uart) (text : List ℕ) (m : Machine D)
      → sent m.dev ≡ u.sent
      → Sends (port_puts bus fuel text) m (uart_puts u text)
  unfolding port_puts uart_puts
  port_puts_refines u [] m same = (m.dev, refl, same)
  port_puts_refines u (c ∷ text) m same = elim (Bool-cases (c == 0)) [
    | inl nul ↦ (m.dev, rw nul, rw nul same)
    | inr char ↦
        let (d, e, s) = port_putc_lem u c m same in
        let (d', e', s') = port_puts_refines (uart_putc u c) text (record m { dev = d }) s in
        (
          d',
          rw char (run-bind (port_putc bus fuel c) (λ _. port_puts bus fuel text) e ∙ e'),
          rw char s',
        )
  ]
