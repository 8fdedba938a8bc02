-- ===== src/Mmc/Card.antt =====
-- What boot/mmc.c relies on the card and its controller for, and that `mmc_read_sector` then reads a sector.
use kernel_team_project.Base.{
  ℕ, zero, suc, ◌+◌, ◌*◌, ◌^◌, ◌≤◌, ◌<◌, ◌≡◌, ◌≢◌, true, some, arith, bit_and, ◌<<◌, eq→==,
  ne→not-==, add32,
}
use kernel_team_project.Regs.{Bus, Machine, not32}
use kernel_team_project.Mmc.Sd
use kernel_team_project.Mmc.{
  mmchs0_base, stat_clear, cmd17, command_word, rsp_48_bits, wait_complete,
}
use kernel_team_project.Mmc.Sector.{ready, not_ready, status_of, on_status, await_data}

-- What the controller is doing: nothing, a command that ends after `n` more reads of the status, the
-- fetch of sector `s` that ends after `n` more of them, or the transfer of its word `i`.
pub data Phase : Type 0 where
  idle : Phase
  running : (s n : ℕ) → Phase
  fetching : (s n : ℕ) → Phase
  sending : (s i : ℕ) → Phase

abbrev pub reg : ℕ → ℕ
reg offset = add32 mmchs0_base offset

-- The bits of the status that `send_command` tests: command complete, and command timeout.
abbrev pub IsComplete : ℕ → Type 0
IsComplete stat = bit_and stat 0x1 ≡ 0x1

abbrev pub IsOnTime : ℕ → Type 0
IsOnTime stat = bit_and stat (0x1 << 16) ≢ 0x1 << 16

-- The word number `i` of a sector, little-endian.
abbrev pub word : (bytes : ℕ → ℕ) → ℕ → ℕ
word bytes i =
    bytes (i * 4)
    + bytes (i * 4 + 1) * 2 ^ 8
    + bytes (i * 4 + 2) * 2 ^ 16
    + bytes (i * 4 + 3) * 2 ^ 24

-- A controller with a card that holds the sectors `disk`, and that answers after at most `busy` and
-- `fetch` reads of the status. A bit of the status stays up until it is cleared.
pub record Card {D : Type 0} (bus : Bus D) (disk : ℕ → ℕ → ℕ) : Type 1 where
  pub In : Phase → D → Type 0
  pub busy : ℕ
  pub fetch : ℕ
  pub allowed :
      (d : D)
      → In idle d
      → let (v, d') = bus.load (reg Sd.pstate) d in (bit_and v 0x1 ≡ 0) × In idle d'
  pub issue :
      (s : ℕ) (d : D)
      → In idle d
      → In (running s busy) (
          bus.store
            (reg Sd.cmd)
            (command_word cmd17 rsp_48_bits)
            (bus.store (reg Sd.arg) s (bus.store (reg Sd.stat) stat_clear d)))
  pub runs :
      (s n : ℕ) (d : D)
      → In (running s (suc n)) d
      → let (v, d') = bus.load (reg Sd.stat) d in
        (bit_and v 0x1 ≢ 0x1) × IsOnTime v × In (running s n) d'
  pub completes :
      (s : ℕ) (d : D)
      → In (running s 0) d
      → let (v, d') = bus.load (reg Sd.stat) d in
        IsComplete v × IsOnTime v × In (fetching s fetch) d'
  pub answers :
      (s n : ℕ) (d : D) → In (fetching s n) d → In (fetching s n) (bus.load (reg Sd.rsp10) d).1
  pub fetches :
      (s n : ℕ) (d : D)
      → In (fetching s (suc n)) d
      → let (v, d') = bus.load (reg Sd.stat) d in
        IsComplete v × (status_of v ≡ not_ready) × In (fetching s n) d'
  pub fetched :
      (s : ℕ) (d : D)
      → In (fetching s 0) d
      → let (v, d') = bus.load (reg Sd.stat) d in
        IsComplete v × (status_of v ≡ ready) × In (fetching s 0) d' × In (sending s 0) d'
  pub sends :
      (s i : ℕ) (d : D)
      → i < 128
      → In (sending s i) d
      → let (v, d') = bus.load (reg Sd.data_reg) d in
        (v ≡ word (disk s) i) × In (sending s (i + 1)) d'
  pub ends :
      (s : ℕ) (d : D)
      → In (sending s 128) d
      → let (con, d') = bus.load (reg Sd.con) (bus.store (reg Sd.stat) 0x1 d) in
        In idle (bus.store (reg Sd.con) (bit_and con (not32 (1 << 1))) d')

module _ {D : Type 0} (bus : Bus D) (disk : ℕ → ℕ → ℕ) (card : Card bus disk) where
  open card use {In, busy, fetch}

  -- A command that has completed is seen at once.
  wait_fetching :
      (s n fuel : ℕ) (m : Machine D)
      → In (fetching s n) m.dev
      → (d : D) × (j : ℕ) × (j ≤ n)
        × In (fetching s j) d
        × (wait_complete bus (suc fuel) m ≡ some (true, record m { dev = d }))
  unfolding wait_complete
  wait_fetching s zero fuel m h =
      let (up, _, next, _) = card.fetched s m.dev h in
      ((bus.load (reg Sd.stat) m.dev).1, 0, omega arith, next, rw (eq→== _ _ up))
  wait_fetching s (suc n) fuel m h =
      let (up, _, next) = card.fetches s n m.dev h in
      ((bus.load (reg Sd.stat) m.dev).1, n, omega arith, next, rw (eq→== _ _ up))

  pub wait_running :
      (s n fuel : ℕ) (m : Machine D)
      → n < fuel
      → In (running s n) m.dev
      → (d : D) × (j : ℕ) × (j ≤ fetch)
        × In (fetching s j) d
        × (wait_complete bus fuel m ≡ some (true, record m { dev = d }))
  unfolding wait_complete
  wait_running s n zero m lt h = absurd (omega arith)
  wait_running s zero (suc fuel) m lt h =
      let (up, _, next) = card.completes s m.dev h in
      ((bus.load (reg Sd.stat) m.dev).1, fetch, omega arith, next, rw (eq→== _ _ up))
  wait_running s (suc zero) (suc zero) m lt h = absurd (omega arith)
  wait_running s (suc zero) (suc (suc fuel)) m lt h =
      let (up, _, next) = card.runs s 0 m.dev h in
      let d1 = (bus.load (reg Sd.stat) m.dev).1 in
      let (_, fine, then_) = card.completes s d1 next in
      let m2 : Machine D = record m { dev = (bus.load (reg Sd.stat) d1).1 } in
      let (d, j, le, i, e) = wait_fetching s fetch fuel m2 then_ in
      (d, j, le, i, rw (ne→not-== _ _ up, ne→not-== _ _ fine) e)
  wait_running s (suc (suc n)) (suc fuel) m lt h =
      let (up, _, next) = card.runs s (suc n) m.dev h in
      let d1 = (bus.load (reg Sd.stat) m.dev).1 in
      let (_, fine, then_) = card.runs s n d1 next in
      let m2 : Machine D = record m { dev = (bus.load (reg Sd.stat) d1).1 } in
      let (d, j, le, i, e) = wait_running s n fuel m2 (omega arith) then_ in
      (d, j, le, i, rw (ne→not-== _ _ up, ne→not-== _ _ fine) e)

  pub await_fetching :
      (s n t : ℕ) (m : Machine D)
      → n ≤ t
      → In (fetching s n) m.dev
      → (d : D) × In (sending s 0) d × (await_data bus t m ≡ some (true, record m { dev = d }))
  unfolding await_data on_status
  await_fetching s zero zero m le h =
      let (_, up, _, next) = card.fetched s m.dev h in
      ((bus.load (reg Sd.stat) m.dev).1, next, rw up)
  await_fetching s zero (suc t) m le h =
      let (_, up, _, next) = card.fetched s m.dev h in
      ((bus.load (reg Sd.stat) m.dev).1, next, rw up)
  await_fetching s (suc n) zero m le h = absurd (omega arith)
  await_fetching s (suc n) (suc t) m le h =
      let (_, down, next) = card.fetches s n m.dev h in
      let m1 : Machine D = record m { dev = (bus.load (reg Sd.stat) m.dev).1 } in
      let (d, i, e) = await_fetching s n t m1 (omega arith) next in (d, i, rw down e)
