-- ===== src/Regs/Poll.antt =====
-- The loops of the drivers that wait for bits of a register, on any device.
use kernel_team_project.Base.{
  ℕ, zero, suc, ◌≤◌, ◌<◌, ◌≡◌, ◌≢◌, Bool, true, false, some, arith, ◌==◌, bit_and, add32, eq→==,
  ne→not-==, refl, inl, inr, Bool-cases,
}
use kernel_team_project.Regs.{Bus, Machine, poll, wait_until, wait_while, wait_for_reg32}

module _ {D : Type 0} (bus : Bus D) (addr : ℕ) where
  -- The device after `n` reads of a register, and the value that the next read returns.
  abbrev pub after : ℕ → D → D
  after zero d = d
  after (suc n) d = after n (bus.load addr d).1

  abbrev pub read : ℕ → D → ℕ
  read n d = (bus.load addr (after n d)).0

module _ {D : Type 0} (bus : Bus D) (base offset mask expected : ℕ) where
  -- The bits of the read number `n`.
  abbrev pub bits : ℕ → D → ℕ
  bits n d = bit_and (read bus (add32 base offset) n d) mask

  -- The read number `k` is the first one with the expected bits.
  pub record FirstMatch (k : ℕ) (d : D) : Type 0 where
    pub before : (i : ℕ) → i < k → bits i d ≢ expected
    pub here : bits k d ≡ expected

  module _ (k : ℕ) (d : D) (first : FirstMatch (suc k) d) where
    open first use {before, here}

    not_yet : (bits 0 d == expected) ≡ false
    not_yet = ne→not-== _ _ (before 0 (omega arith))

    later : FirstMatch k (bus.load (add32 base offset) d).1
    later = record { before = λ i h. before (suc i) (omega arith); here = here }

  abbrev pub rest : ℕ → Machine D → Machine D
  rest n m = record m { dev = after bus (add32 base offset) n m.dev }

  -- Bits that come up within the timeout are seen, by the first read that has them.
  pub poll_found :
      (k t : ℕ) (m : Machine D)
      → k ≤ t
      → FirstMatch k m.dev
      → poll bus base offset mask expected t m ≡ some (true, rest (suc k) m)
  unfolding poll
  poll_found zero zero m h first = rw (eq→== _ _ first.here)
  poll_found zero (suc t) m h first = rw (eq→== _ _ first.here)
  poll_found (suc k) zero m h first = absurd (omega arith)
  poll_found (suc k) (suc t) m h first =
      rw (not_yet k m.dev first) (poll_found k t (rest 1 m) (omega arith) (later k m.dev first))

  -- Bits that do not are given up after exactly `t + 1` reads.
  pub poll_timeout :
      (t : ℕ) (m : Machine D)
      → ((i : ℕ) → i ≤ t → bits i m.dev ≢ expected)
      → poll bus base offset mask expected t m ≡ some (false, rest (suc t) m)
  unfolding poll
  poll_timeout zero m never = rw (ne→not-== _ _ (never 0 (omega arith)))
  poll_timeout (suc t) m never =
      rw (ne→not-== _ _ (never 0 (omega arith)))
        (poll_timeout t (rest 1 m) (λ i h. never (suc i) (omega arith)))

  -- A wait without a bound ends as soon as the fuel allows one more read than there are in vain.
  pub wait_until_found :
      (k fuel : ℕ) (m : Machine D)
      → k < fuel
      → FirstMatch k m.dev
      → wait_until bus fuel base offset mask expected m ≡ some (tt, rest (suc k) m)
  unfolding wait_until
  wait_until_found k zero m h first = absurd (omega arith)
  wait_until_found zero (suc fuel) m h first = rw (eq→== _ _ first.here)
  wait_until_found (suc k) (suc fuel) m h first =
      rw (not_yet k m.dev first)
        (wait_until_found k fuel (rest 1 m) (omega arith) (later k m.dev first))

  -- Whatever the device does, the loop with a bound ends: after `n` reads, of which there are at most
  -- `t + 1`.
  pub poll_ends :
      (t : ℕ) (m : Machine D)
      → (seen : Bool) × (n : ℕ) × (n ≤ suc t)
        × (poll bus base offset mask expected t m ≡ some (seen, rest n m))
  unfolding poll
  poll_ends zero m = (bits 0 m.dev == expected, 1, omega arith, refl)
  poll_ends (suc t) m = elim (Bool-cases (bits 0 m.dev == expected)) [
    | inl now ↦ (true, 1, omega arith, rw now)
    | inr no_match ↦
        let (seen, n, le, e) = poll_ends t (rest 1 m) in (seen, suc n, omega arith, rw no_match e)
  ]

  pub wait_for_reg32_ends :
      (t : ℕ) (m : Machine D)
      → (n : ℕ) × (n ≤ suc t)
        × (wait_for_reg32 bus base offset mask expected t m ≡ some (tt, rest n m))
  unfolding wait_for_reg32
  wait_for_reg32_ends zero m = (1, omega arith, refl)
  wait_for_reg32_ends (suc t) m = elim (Bool-cases (bits 0 m.dev == expected)) [
    | inl now ↦ (1, omega arith, rw now)
    | inr no_match ↦
        let (n, le, e) = wait_for_reg32_ends t (rest 1 m) in (suc n, omega arith, rw no_match e)
  ]

module _ {D : Type 0} (bus : Bus D) (base offset : ℕ) (test : ℕ → Bool) where
  -- A wait goes on for as long as the test holds of what is read, and ends with the read number `k`.
  pub record EndsAt (k : ℕ) (d : D) : Type 0 where
    pub goes_on : (i : ℕ) → i < k → test (read bus (add32 base offset) i d) ≡ true
    pub ends : test (read bus (add32 base offset) k d) ≡ false

  pub wait_while_found :
      (k fuel : ℕ) (m : Machine D)
      → k < fuel
      → EndsAt k m.dev
      → wait_while bus fuel base offset test m
        ≡ some (tt, record m { dev = after bus (add32 base offset) (suc k) m.dev })
  unfolding wait_while
  wait_while_found k zero m h at = absurd (omega arith)
  wait_while_found zero (suc fuel) m h at = rw at.ends
  wait_while_found (suc k) (suc fuel) m h at =
      let m1 : Machine D = record m { dev = (bus.load (add32 base offset) m.dev).1 } in
      rw (at.goes_on 0 (omega arith)) (
        wait_while_found k fuel m1 (omega arith)
          (record { goes_on = λ i lt. at.goes_on (suc i) (omega arith); ends = at.ends }))
