-- ===== src/Mmc/Sector.antt =====
-- `mmc_read_sector` of boot/mmc.c.
use kernel_team_project.Base.{
  ℕ, zero, suc, ◌+◌, ◌*◌, Bool, true, false, ◌==◌, ◌!=◌, if◌then◌else◌, [], ◌∷◌, bit_and, ◌<<◌,
  ◌>>>◌, update, ℤ, is_zero, pos,
}
use kernel_team_project.Regs.{
  Bus, Io, pure, ◌>>=◌, ◌>>◌, log_message, log_level_error, log_level_warn, reg32_write, reg32_read,
  not32,
}
use kernel_team_project.Mmc.Sd
use kernel_team_project.Mmc.{mmchs0_base, cmd17, rsp_48_bits, Words, failure, send_command}

-- What the loop that waits makes of the status, in the order of its tests.
pub data Status : Type 0 where
  ready : Status
  no_response : Status
  data_timeout : Status
  other_error : Status
  not_ready : Status

unfoldable pub status_of : (stat : ℕ) → Status
status_of stat =
    if bit_and stat (1 << 5) != 0
    then ready
    else if stat == 0
    then no_response
    else if bit_and stat (1 << 20) != 0
    then data_timeout
    else if bit_and stat 0x78000 != 0
    then other_error
    else not_ready

-- One word of data, as its four bytes.
abbrev pub put_word : (i word : ℕ) → Words → Words
put_word i word buffer =
    let buffer = update buffer (i * 4) (bit_and word 0xFF) in
    let buffer = update buffer (i * 4 + 1) (bit_and (word >>> 8) 0xFF) in
    let buffer = update buffer (i * 4 + 2) (bit_and (word >>> 16) 0xFF) in
    update buffer (i * 4 + 3) (bit_and (word >>> 24) 0xFF)

-- The body of that loop behind the read of the status; `rest` is what follows if it goes on. The
-- result is whether the data are read.
unfoldable pub on_status : {D : Type 0} (stat : ℕ) → Status → (rest : Io D Bool) → Io D Bool
unfolding log_message
on_status stat ready rest = pure true
on_status stat no_response rest = do
  log_message log_level_error "No response from card (SD_STAT = 0 after cmd17)\n" []
  pure true
on_status stat data_timeout rest = do
  log_message log_level_error "Data timeout error after cmd17\n" []
  pure false
on_status stat other_error rest = do
  log_message log_level_error "Some other error..cmd17 stat raw: %d" (stat ∷ [])
  pure false
on_status stat not_ready rest = rest

module _ {D : Type 0} (bus : Bus D) where
  -- The loop, for a count of one more than `timeout`.
  unfoldable pub await_data : (timeout : ℕ) → Io D Bool
  unfolding status_of log_message
  await_data zero = do
    stat ← reg32_read bus mmchs0_base Sd.stat
    on_status stat (status_of stat)
        (do log_message log_level_error "Timeout waiting for BRR bit\n" []; pure false)
  await_data (suc timeout) =
      let rest = await_data timeout in
      do stat ← reg32_read bus mmchs0_base Sd.stat; on_status stat (status_of stat) rest

  -- The loop over the words, for the rounds that are left from `i` on.
  unfoldable pub read_words : (rounds i : ℕ) → Words → Io D Words
  read_words zero i buffer = pure buffer
  read_words (suc rounds) i buffer = do
    word ← reg32_read bus mmchs0_base Sd.data_reg
    read_words rounds (i + 1) (put_word i word buffer)

  -- What ends the transfer.
  unfoldable pub end_transfer : Words → Io D (ℤ × Words)
  end_transfer buffer = do
    reg32_write bus mmchs0_base Sd.stat 0x1
    con ← reg32_read bus mmchs0_base Sd.con
    reg32_write bus mmchs0_base Sd.con (bit_and con (not32 (1 << 1)))
    pure (pos 0, buffer)

  -- What follows the wait for the data.
  unfoldable pub transfer : Words → Bool → Io D (ℤ × Words)
  transfer buffer false = pure (failure, buffer)
  transfer buffer true = do buffer ← read_words 128 0 buffer; end_transfer buffer

  -- What follows the command.
  unfoldable pub after_command : Words → (result : ℤ) → Io D (ℤ × Words)
  unfolding log_message
  after_command buffer result =
      if is_zero result
      then (do await ← await_data 999_999; transfer buffer await)
      else (do log_message log_level_warn "CMD17 CTO\n" []; pure (failure, buffer))

  -- The buffer comes back as it is after the call.
  unfoldable pub mmc_read_sector : (fuel sector : ℕ) → Words → Io D (ℤ × Words)
  mmc_read_sector fuel sector buffer = do
    result ← send_command bus fuel cmd17 sector rsp_48_bits (λ _. 0)
    after_command buffer result.0
