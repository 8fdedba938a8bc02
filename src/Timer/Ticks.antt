-- ===== src/Timer/Ticks.antt =====
-- The guards, the clock and the count of os/drivers/timer.c.
use kernel_team_project.Base.{
  ℕ, suc, ◌+◌, ◌*◌, ◌-◌, ◌^◌, ◌%◌, ◌<◌, ◌≡◌, ◌⊎◌, ◌∙◌, true, false, some, arith, ◌!=◌, bit_and,
  bit_and_low, bit_and_below, ◌<<◌, add32,
}
use kernel_team_project.Regs.{Bus, Io, Machine, run-bind, wait_while, masked}
use kernel_team_project.Regs.Poll.{EndsAt, after, wait_while_found}
use kernel_team_project.Clock.{cm_per_base, cm_dpll_base}
use kernel_team_project.Timer.{
  Timers, timer_pll_clksel_off, timer_module_clk_off, reload, is_invalid, enable_clock, timer_init,
  timer_start, timer_stop, timer_value,
}

module _ {D : Type 0} (bus : Bus D) (fuel : ℕ) where
  -- An index that is not one of the timers 2 to 7 is refused by all four calls, which then touch no
  -- register and no table.
  pub timer_invalid :
      (t : Timers D) (i ms : ℕ) (f : Io D (Unit {0})) (m : Machine D)
      → (i < 2) ⊎ (7 < i)
      → (timer_init bus fuel t i ms f m ≡ some ((false, t), m))
        × (timer_start bus fuel i m ≡ some (false, m))
        × (timer_stop bus fuel i m ≡ some (false, m))
        × (timer_value bus fuel i m ≡ some (0, m))
  unfolding timer_init timer_start timer_stop timer_value
  timer_invalid t i ms f m h =
      let bad : is_invalid i ≡ true = ground arith in (rw bad, rw bad, rw bad, rw bad)

  -- No value of the clock register makes the loop that waits for the clock go on.
  no_wait : (v : ℕ) → (bit_and (bit_and v (0x3 << 16)) 0x3 != 0) ≡ false
  no_wait v =
      let low : bit_and (bit_and v (3 * 2 ^ 16)) (2 ^ 2 - 1) ≡ bit_and v (3 * 2 ^ 16) % 2 ^ 2 =
        bit_and_low 2 (bit_and v (3 * 2 ^ 16)) in
      let none_below : bit_and v (3 * 2 ^ 16) % 2 ^ 16 ≡ 0 = bit_and_below 16 v 3 in
      let zero_low : bit_and (bit_and v (0x3 << 16)) 0x3 ≡ 0 = omega (arith, low, none_below) in
      rw zero_low

  -- Once the clock has been selected, `timer_init` goes on after one read of the clock register, whatever
  -- that register holds: its mask and the bits that it is read with have none in common.
  pub enable_clock_lem :
      (i n : ℕ) (m : Machine D)
      → n < fuel
      → EndsAt bus cm_dpll_base
          (timer_pll_clksel_off i)
          (λ v. bit_and v 0x3 != 0x2)
          n
          (bus.store (add32 cm_dpll_base (timer_pll_clksel_off i)) 0x2 m.dev)
      → let pll = add32 cm_dpll_base (timer_pll_clksel_off i) in
        let clk = add32 cm_per_base (timer_module_clk_off i) in
        let (old, d) = bus.load clk (after bus pll (suc n) (bus.store pll 0x2 m.dev)) in
        enable_clock bus fuel i m
        ≡ some (tt, record m { dev = (bus.load clk (bus.store clk (masked old 0x3 0x2) d)).1 })
  unfolding enable_clock
  enable_clock_lem i n m lt selected =
      let pll = add32 cm_dpll_base (timer_pll_clksel_off i) in
      let clk = add32 cm_per_base (timer_module_clk_off i) in
      let m1 : Machine D = record m { dev = bus.store pll 0x2 m.dev } in
      let (old, d) = bus.load clk (after bus pll (suc n) m1.dev) in
      let m2 : Machine D = record m { dev = bus.store clk (masked old 0x3 0x2) d } in
      run-bind
        (wait_while bus fuel cm_dpll_base (timer_pll_clksel_off i) (λ v. bit_and v 0x3 != 0x2)) _
        (wait_while_found bus cm_dpll_base (timer_pll_clksel_off i) (λ v. bit_and v 0x3 != 0x2) n
          fuel m1 lt selected)
      ∙ wait_while_found bus cm_per_base (timer_module_clk_off i)
          (λ v. bit_and (bit_and v (0x3 << 16)) 0x3 != 0) 0 fuel m2 (omega arith)
          (record {
            goes_on = λ j before. absurd (omega arith);
            ends = no_wait (bus.load clk m2.dev).0;
          })

-- A timer overflows after one count more than the 32 for each millisecond, up to 2^27 milliseconds.
pub reload_lem : (ms : ℕ) → ms < 2 ^ 27 → 2 ^ 32 - reload ms ≡ ms * 32 + 1
reload_lem ms h = omega arith
