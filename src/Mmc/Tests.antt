-- ===== src/Mmc/Tests.antt =====
-- The theorems about boot/mmc.c at concrete devices: registers that keep what is written, and a card.
use kernel_team_project.Base.{
  List, ℕ, zero, suc, ◌+◌, ◌%◌, ◌≡◌, refl, some, [], ◌∷◌, arith, ◌==◌, if◌then◌else◌, pos, ℤ,
  update,
}
use kernel_team_project.Regs.{Bus, Machine, wait_until, log_message}
use kernel_team_project.Mmc.{Words, send_command}
use kernel_team_project.Mmc.Sd
use kernel_team_project.Mmc.{allowed_command, completed, wait_complete, response_of, read_response}
use kernel_team_project.Mmc.Disk.{disk_of, AllAnswer, read_all, read_all_lem}
use kernel_team_project.Mmc.Sector.{mmc_read_sector, status_of}
use kernel_team_project.Mmc.Outcome.{IsOutcome, mmc_read_sector-IsOutcome, mmc_read_sector_silent}
use kernel_team_project.Mmc.Card.{Phase, idle, running, fetching, sending, reg, word, Card}

-- A card whose byte `k` of sector `s` is `(s + k) % 256`, that takes three reads of the status for a
-- command and two for a sector.
record Sim : Type 0 where
  phase : Phase
  argument : ℕ

abbrev bytes : ℕ → ℕ → ℕ
bytes s k = (s + k) % 256

-- A read of the status, and a read of the data.
load_stat : Phase → ℕ × Phase
load_stat idle = (0, idle)
load_stat (running s zero) = (0x1, fetching s 2)
load_stat (running s (suc n)) = (0, running s n)
load_stat (fetching s zero) = (0x21, fetching s 0)
load_stat (fetching s (suc n)) = (0x1, fetching s n)
load_stat (sending s i) = (0x21, sending s i)

load_word : Phase → ℕ × Phase
load_word (fetching s zero) = (word (bytes s) 0, sending s 1)
load_word (sending s i) = (word (bytes s) i, sending s (suc i))
load_word p = (0, p)

-- The end of a transfer.
stopped : Phase → Phase
stopped (sending s i) = idle
stopped p = p

-- The phase in which the device is when the protocol is in a phase.
canon : Phase → Phase
canon (sending s zero) = fetching s 0
canon p = p

sim : Bus Sim
sim = record {
  load = λ addr d.
      if addr == reg Sd.stat
      then (let (v, p) = load_stat d.phase in (v, record d { phase = p }))
      else if addr == reg Sd.data_reg
      then (let (v, p) = load_word d.phase in (v, record d { phase = p }))
      else (0, d);
  store = λ addr value d.
      if addr == reg Sd.cmd
      then record d { phase = running d.argument 3 }
      else if addr == reg Sd.arg
      then record d { argument = value }
      else if addr == reg Sd.con
      then record d { phase = stopped d.phase }
      else d;
}

-- The word that is sent, from the second one on.
sends_later :
    (s i : ℕ) (d : Sim)
    → d.phase ≡ canon (sending s i)
    → ((sim.load (reg Sd.data_reg) d).0 ≡ word (bytes s) i)
      × ((sim.load (reg Sd.data_reg) d).1.phase ≡ canon (sending s (suc i)))
unfolding sim load_word canon
sends_later s zero d h = (rw h refl, rw h refl)
sends_later s (suc i) d h = (rw h refl, rw h refl)

sim_card : Card sim bytes
unfolding sim load_stat canon stopped status_of
sim_card = record {
  In = λ p d. d.phase ≡ canon p;
  busy = 3;
  fetch = 2;
  allowed = λ d h. (refl, h);
  issue = λ s d h. refl;
  runs = λ s n d h. (rw h (omega arith), rw h (omega arith), rw h refl);
  completes = λ s d h. (rw h refl, rw h (omega arith), rw h refl);
  answers = λ s n d h. h;
  fetches = λ s n d h. (rw h refl, rw h refl, rw h refl);
  fetched = λ s d h. (rw h refl, rw h refl, rw h refl, rw h refl);
  sends = λ s i d lt h.
      let (v, p) = sends_later s i d h in let e : i + 1 ≡ suc i = omega arith in (v, rw e p);
  ends = λ s d h. rw h refl;
}

abbrev sim_start : Machine Sim
sim_start = record { dev = record { phase = idle; argument = 0 }; console = [] }

-- The sectors 7, 3 and 7 again.
read_all_lem_example :
    (rs : List (ℤ × Words)) × (d : Sim) × (d.phase ≡ idle)
    × (read_all sim 9 (7 ∷ 3 ∷ 7 ∷ []) (λ _. 0) sim_start ≡ some (rs, record sim_start { dev = d }))
    × AllAnswer (disk_of bytes) (7 ∷ 3 ∷ 7 ∷ []) rs
unfolding canon sim_card
read_all_lem_example =
    read_all_lem sim bytes sim_card (λ s k. omega arith) 9 (7 ∷ 3 ∷ 7 ∷ []) (λ _. 0) sim_start
      (omega arith) (omega arith) refl

-- A device whose status is that of a completed command once, and then 0.
abbrev mute : Bus ℕ
mute = record {
  load = λ addr d. if addr == reg Sd.stat then (if d == 0 then 1 else 0, d + 1) else (0, d);
  store = λ addr value d. d;
}

abbrev mute_start : Machine ℕ
mute_start = record { dev = 0; console = [] }

abbrev mute_sent : Machine ℕ
mute_sent = record { dev = 1; console = [] }

mmc_read_sector_silent_example :
    (result : Words) × (d : ℕ) × (mmc_read_sector mute 1 7 (λ _. 0) mute_start
      ≡ some (
        (pos 0, result),
        record {
          dev = d;
          console = ("No response from card (SD_STAT = 0 after cmd17)\n", []) ∷ [];
        },
      ))
unfolding send_command allowed_command completed read_response wait_complete wait_until response_of
    log_message
mmc_read_sector_silent_example =
    mmc_read_sector_silent mute 1 7 (λ _. 0) mute_start {response = update (λ _. 0) 0 0}
      {m1 = mute_sent} refl refl

mmc_read_sector-IsOutcome_example :
    (r : (ℤ × Words) × Machine ℕ) × (mmc_read_sector mute 1 7 (λ _. 0) mute_start ≡ some r)
    × IsOutcome (λ _. 0) r.0
unfolding send_command allowed_command completed read_response wait_complete wait_until response_of
    log_message
mmc_read_sector-IsOutcome_example =
    mmc_read_sector-IsOutcome mute 1 7 (λ _. 0) mute_start {sent = (pos 0, update (λ _. 0) 0 0)}
      {m1 = mute_sent} refl
