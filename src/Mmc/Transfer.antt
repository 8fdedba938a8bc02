-- ===== src/Mmc/Transfer.antt =====
-- The transfer of a sector by boot/mmc.c, word for word, and the call as a whole.
use kernel_team_project.Base.{
  ℕ, zero, suc, ◌+◌, ◌*◌, ◌≤◌, ◌<◌, ◌≡◌, inl, inr, refl, ◌∙◌, some, arith, bit_and, bit_and_low,
  ◌>>>◌, ◌<<◌, pos, ◌==◌, if◌then◌else◌, Bool-cases, ==→eq, not-==→ne, update, ltb, ltb→lt,
  not-ltb→le,
}
use kernel_team_project.Regs.{Bus, Machine, not32, log_message, run-bind, wait_until}
use kernel_team_project.Regs.Poll.{FirstMatch, wait_until_found}
use kernel_team_project.Mmc.Sd
use kernel_team_project.Mmc.{
  mmchs0_base, allowed_command, wait_complete, cmd17, rsp_48_bits, Words, command_word, stat_clear,
  read_response, response_of, completed, send_command,
}
use kernel_team_project.Mmc.Sector.{
  put_word, await_data, read_words, transfer, end_transfer, after_command, mmc_read_sector,
}
use kernel_team_project.Mmc.Card.{
  idle, sending, fetching, reg, word, Card, wait_running, await_fetching,
}

-- A word that is made of bytes is stored as them.
module _ (bytes buffer : Words) (i : ℕ) (small : (k : ℕ) → bytes k < 256) where
  abbrev stored : Words
  stored = put_word i (word bytes i) buffer

  stored_bytes :
      (stored (i * 4) ≡ bytes (i * 4))
      × (stored (i * 4 + 1) ≡ bytes (i * 4 + 1))
      × (stored (i * 4 + 2) ≡ bytes (i * 4 + 2))
      × (stored (i * 4 + 3) ≡ bytes (i * 4 + 3))
  stored_bytes =
      let w = word bytes i in
      let s0 = small (i * 4) in
      let s1 = small (i * 4 + 1) in
      let s2 = small (i * 4 + 2) in
      let s3 = small (i * 4 + 3) in
      (
        ground (arith, bit_and_low 8 w),
        ground (arith, bit_and_low 8 (w >>> 8)),
        ground (arith, bit_and_low 8 (w >>> 16)),
        ground (arith, bit_and_low 8 (w >>> 24)),
      )

  stored_here : (k : ℕ) → i * 4 ≤ k → k < i * 4 + 4 → stored k ≡ bytes k
  stored_here k from to = elim (Bool-cases (k == i * 4)) [
    | inl e ↦ let e' = ==→eq _ _ e in rw e' stored_bytes.0
    | inr n0 ↦ elim (Bool-cases (k == i * 4 + 1)) [
      | inl e ↦ let e' = ==→eq _ _ e in rw e' stored_bytes.1
      | inr n1 ↦ elim (Bool-cases (k == i * 4 + 2)) [
        | inl e ↦ let e' = ==→eq _ _ e in rw e' stored_bytes.2
        | inr n2 ↦
            let e' : k ≡ i * 4 + 3 =
              omega (arith, not-==→ne _ _ n0, not-==→ne _ _ n1, not-==→ne _ _ n2) in
            rw e' stored_bytes.3
      ]
    ]
  ]

  stored_before : (k : ℕ) → k < i * 4 → stored k ≡ buffer k
  stored_before k lt = ground arith

  stored_behind : (k : ℕ) → i * 4 + 4 ≤ k → stored k ≡ buffer k
  stored_behind k le = ground arith

module _ {D : Type 0} (bus : Bus D) (disk : ℕ → ℕ → ℕ) (card : Card bus disk) (s : ℕ)
    (small : (k : ℕ) → disk s k < 256) where
  open card use {In, busy, fetch}

  -- The bytes from word `i` to the end of the sector come to be those of the sector, and no others
  -- change.
  record Copied (i : ℕ) (before result : Words) : Type 0 where
    new : (k : ℕ) → i * 4 ≤ k → k < 512 → result k ≡ disk s k
    old : (k : ℕ) → k < i * 4 → result k ≡ before k
    behind : (k : ℕ) → 512 ≤ k → result k ≡ before k

  read_words_copies :
      (rounds i : ℕ) (buffer : Words) (m : Machine D)
      → i + rounds ≡ 128
      → In (sending s i) m.dev
      → (result : Words) × (d : D) × Copied i buffer result
        × In (sending s 128) d
        × (read_words bus rounds i buffer m ≡ some (result, record m { dev = d }))
  unfolding read_words
  read_words_copies zero i buffer m e h =
      let e' : i ≡ 128 = omega arith in
      (
        buffer,
        m.dev,
        record { new = λ k from to. absurd (omega arith); old = λ k _. refl; behind = λ k _. refl },
        rw (← e') h,
        refl,
      )
  read_words_copies (suc rounds) i buffer m e h =
      let (value, next) = card.sends s i m.dev (omega arith) h in
      let m1 : Machine D = record m { dev = (bus.load (reg Sd.data_reg) m.dev).1 } in
      let now = put_word i (word (disk s) i) buffer in
      let (result, d, copied, end_, run) =
        read_words_copies rounds (i + 1) now m1 (omega arith) next in
      (
        result,
        d,
        record {
          new = λ k from to. elim (Bool-cases (ltb k (i * 4 + 4))) [
            | inl here ↦
                let lt = ltb→lt _ _ here in
                copied.old k (omega arith) ∙ stored_here (disk s) buffer i small k from lt
            | inr past ↦ let le = not-ltb→le _ _ past in copied.new k (omega arith) to
          ];
          old = λ k lt. copied.old k (omega arith) ∙ stored_before (disk s) buffer i small k lt;
          behind =
              λ k le. copied.behind k le ∙ stored_behind (disk s) buffer i small k (omega arith);
        },
        end_,
        rw value run,
      )

  -- The command goes out, completes, and leaves the card at the fetch of the sector.
  send_command_lem :
      (fuel : ℕ) (response : Words) (m : Machine D)
      → busy < fuel
      → In idle m.dev
      → (d : D) × (j : ℕ) × (response' : Words) × (j ≤ fetch)
        × In (fetching s j) d
        × (send_command bus fuel cmd17 s rsp_48_bits response m
            ≡ some ((pos 0, response'), record m { dev = d }))
  unfolding send_command allowed_command completed read_response response_of log_message
  send_command_lem fuel response m lt h =
      let (clear, still) = card.allowed m.dev h in
      let d1 = (bus.load (reg Sd.pstate) m.dev).1 in
      let first : FirstMatch bus mmchs0_base Sd.pstate 0x1 0 0 m.dev = record {
        before = λ i none_before. absurd (omega arith);
        here = clear;
      } in
      let allowed = wait_until_found bus mmchs0_base Sd.pstate 0x1 0 0 fuel m (omega arith) first in
      let m2 : Machine D = record m {
        dev =
            bus.store (reg Sd.cmd) (command_word cmd17 rsp_48_bits)
              (bus.store (reg Sd.arg) s (bus.store (reg Sd.stat) stat_clear d1));
      } in
      let (d, j, le, phase, complete) =
        wait_running bus disk card s busy fuel m2 lt (card.issue s d1 still) in
      (
        (bus.load (reg Sd.rsp10) d).1,
        j,
        update response 0 (bus.load (reg Sd.rsp10) d).0,
        le,
        card.answers s j d phase,
        run-bind (wait_until bus fuel mmchs0_base Sd.pstate 0x1 0)
              (λ _. allowed_command bus fuel cmd17 s rsp_48_bits response) allowed
            ∙ run-bind (wait_complete bus fuel) (completed bus cmd17 response) complete,
      )

  -- A card that is idle, and that answers within the fuel and the timeout, is read: the call returns 0
  -- with the 512 bytes of the sector in the buffer, nothing behind them is written, nothing is printed,
  -- and the card is idle again.
  pub mmc_read_sector_lem :
      (fuel : ℕ) (buffer : Words) (m : Machine D)
      → busy < fuel
      → fetch < 1_000_000
      → In idle m.dev
      → (result : Words) × (d : D) × In idle d
        × (mmc_read_sector bus fuel s buffer m ≡ some ((pos 0, result), record m { dev = d }))
        × ((k : ℕ) → result k ≡ (if ltb k 512 then disk s k else buffer k))
  unfolding mmc_read_sector after_command transfer end_transfer
  mmc_read_sector_lem fuel buffer m lt soon h =
      let (d1, j, response, le, phase, sent) = send_command_lem fuel (λ _. 0) m lt h in
      let m1 : Machine D = record m { dev = d1 } in
      let (d2, start, awaited) = await_fetching bus disk card s j 999_999 m1 (omega arith) phase in
      let m2 : Machine D = record m { dev = d2 } in
      let (result, d3, copied, end_, run) = read_words_copies 128 0 buffer m2 (omega arith) start in
      (
        result,
        bus.store (reg Sd.con)
            (bit_and (bus.load (reg Sd.con) (bus.store (reg Sd.stat) 0x1 d3)).0 (not32 (1 << 1)))
            (bus.load (reg Sd.con) (bus.store (reg Sd.stat) 0x1 d3)).1,
        card.ends s d3 end_,
        run-bind (send_command bus fuel cmd17 s rsp_48_bits (λ _. 0))
              (λ r. after_command bus buffer r.0) sent
            ∙ run-bind (await_data bus 999_999) (transfer bus buffer) awaited
            ∙ run-bind (read_words bus 128 0 buffer) (end_transfer bus) run,
        λ k. elim (Bool-cases (ltb k 512)) [
          | inl here ↦ rw here (copied.new k (omega arith) (ltb→lt _ _ here))
          | inr past ↦ rw past (copied.behind k (not-ltb→le _ _ past))
        ],
      )
