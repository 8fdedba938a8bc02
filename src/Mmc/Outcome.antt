-- ===== src/Mmc/Outcome.antt =====
-- How a call of `mmc_read_sector` of boot/mmc.c can end, on any device.
use kernel_team_project.Base.{
  ℕ, zero, suc, ◌+◌, ◌≡◌, ◌⊎◌, ◌∙◌, inl, inr, refl, some, Bool, true, false, [], ◌∷◌, ◌++◌, ℤ, pos,
  negsuc,
}
use kernel_team_project.Regs.{Bus, Io, Machine, Message, run-bind, uart_printf}
use kernel_team_project.Regs.Ends.{Ends}
use kernel_team_project.Mmc.Sd
use kernel_team_project.Mmc.{cmd17, rsp_48_bits, Words, failure, send_command}
use kernel_team_project.Mmc.Card.{reg}
use kernel_team_project.Mmc.Sector.{
  Status, ready, no_response, data_timeout, other_error, not_ready, status_of, on_status, put_word,
  await_data, read_words, end_transfer, transfer, after_command, mmc_read_sector,
}

-- 0, or -1 with the buffer as it was.
abbrev pub IsOutcome : (buffer : Words) → ℤ × Words → Type 0
IsOutcome buffer (r, result) = (r ≡ pos 0) ⊎ ((r ≡ failure) × (result ≡ buffer))

module _ {D : Type 0} (bus : Bus D) where
  read_words_ends :
      (rounds i : ℕ) (buffer : Words) (m : Machine D)
      → (result : Words) × (d : D) × (read_words bus rounds i buffer m
          ≡ some (result, record m { dev = d }))
  unfolding read_words
  read_words_ends zero i buffer m = (buffer, m.dev, refl)
  read_words_ends (suc rounds) i buffer m =
      read_words_ends rounds (i + 1) (put_word i (bus.load (reg Sd.data_reg) m.dev).0 buffer)
        (record m { dev = (bus.load (reg Sd.data_reg) m.dev).1 })

  on_status-Ends :
      (s : Status) (stat : ℕ) (rest : Io D Bool) → Ends rest → Ends (on_status stat s rest)
  unfolding on_status uart_printf
  on_status-Ends ready stat rest h m = (_, refl)
  on_status-Ends no_response stat rest h m = (_, refl)
  on_status-Ends data_timeout stat rest h m = (_, refl)
  on_status-Ends other_error stat rest h m = (_, refl)
  on_status-Ends not_ready stat rest h m = h m

  -- The loop that waits for the data gives up after its timeout.
  await_data-Ends : (t : ℕ) → Ends (await_data bus t)
  unfolding await_data uart_printf
  await_data-Ends zero m =
      let stat = (bus.load (reg Sd.stat) m.dev).0 in
      on_status-Ends (status_of stat) stat _ (λ m. (_, refl)) _
  await_data-Ends (suc t) m =
      let stat = (bus.load (reg Sd.stat) m.dev).0 in
      on_status-Ends (status_of stat) stat (await_data bus t) (await_data-Ends t) _

  await_silent :
      (t : ℕ) (m : Machine D)
      → (bus.load (reg Sd.stat) m.dev).0 ≡ 0
      → await_data bus (suc t) m
        ≡ some (
          true,
          record {
            dev = (bus.load (reg Sd.stat) m.dev).1;
            console = m.console ++ ("No response from card (SD_STAT = 0 after cmd17)\n", []) ∷ [];
          },
        )
  unfolding await_data status_of on_status uart_printf
  await_silent t m h = rw h

  transfer-IsOutcome :
      (buffer : Words) (await : Bool) (m : Machine D)
      → (r : (ℤ × Words) × Machine D) × (transfer bus buffer await m ≡ some r)
        × IsOutcome buffer r.0
  unfolding transfer end_transfer
  transfer-IsOutcome buffer false m = (_, refl, inr (refl, refl))
  transfer-IsOutcome buffer true m =
      let (result, d, e) = read_words_ends 128 0 buffer m in
      (_, run-bind (read_words bus 128 0 buffer) (end_transfer bus) e, inl refl)

  after_command-IsOutcome :
      (buffer : Words) (z : ℤ) (m : Machine D)
      → (r : (ℤ × Words) × Machine D) × (after_command bus buffer z m ≡ some r)
        × IsOutcome buffer r.0
  unfolding after_command uart_printf
  after_command-IsOutcome buffer (negsuc n) m = (_, refl, inr (refl, refl))
  after_command-IsOutcome buffer (pos (suc n)) m = (_, refl, inr (refl, refl))
  after_command-IsOutcome buffer (pos zero) m =
      let ((await, m1), e) = await_data-Ends 999_999 m in
      let (r, e', outcome) = transfer-IsOutcome buffer await m1 in
      (r, run-bind (await_data bus 999_999) (transfer bus buffer) e ∙ e', outcome)

  -- Once its command has come back, with whatever result, the call returns: 0, or -1 with the buffer
  -- untouched.
  pub mmc_read_sector-IsOutcome :
      (fuel sector : ℕ) (buffer : Words) (m : Machine D) {sent : ℤ × Words} {m1 : Machine D}
      → send_command bus fuel cmd17 sector rsp_48_bits (λ _. 0) m ≡ some (sent, m1)
      → (r : (ℤ × Words) × Machine D) × (mmc_read_sector bus fuel sector buffer m ≡ some r)
        × IsOutcome buffer r.0
  unfolding mmc_read_sector
  mmc_read_sector-IsOutcome fuel sector buffer m {sent} {m1} e =
      let (r, e', outcome) = after_command-IsOutcome buffer sent.0 m1 in
      (
        r,
        run-bind (send_command bus fuel cmd17 sector rsp_48_bits (λ _. 0))
              (λ z. after_command bus buffer z.0) e
            ∙ e',
        outcome,
      )

  -- Where the command comes back with 0 and the status register then reads as 0, that is reported as an
  -- error on the console, and nothing else is printed, but the call returns 0 all the same.
  pub mmc_read_sector_silent :
      (fuel sector : ℕ) (buffer : Words) (m : Machine D) {response : Words} {m1 : Machine D}
      → send_command bus fuel cmd17 sector rsp_48_bits (λ _. 0) m ≡ some ((pos 0, response), m1)
      → (bus.load (reg Sd.stat) m1.dev).0 ≡ 0
      → (result : Words) × (d : D) × (mmc_read_sector bus fuel sector buffer m
          ≡ some (
            (pos 0, result),
            record {
              dev = d;
              console =
                  m1.console ++ ("No response from card (SD_STAT = 0 after cmd17)\n", []) ∷ [];
            },
          ))
  unfolding mmc_read_sector after_command transfer end_transfer
  mmc_read_sector_silent fuel sector buffer m {response} {m1} e silent =
      let message : Message = ("No response from card (SD_STAT = 0 after cmd17)\n", []) in
      let m2 : Machine D = record {
        dev = (bus.load (reg Sd.stat) m1.dev).1;
        console = m1.console ++ message ∷ [];
      } in
      let (result, d, e') = read_words_ends 128 0 buffer m2 in
      (
        result,
        _,
        run-bind (send_command bus fuel cmd17 sector rsp_48_bits (λ _. 0))
              (λ z. after_command bus buffer z.0) e
            ∙ run-bind (await_data bus 999_999) (transfer bus buffer)
                (await_silent 999_998 m1 silent)
            ∙ run-bind (read_words bus 128 0 buffer) (end_transfer bus) e',
      )
