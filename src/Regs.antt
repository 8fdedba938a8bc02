-- ===== src/Regs.antt =====
-- common/utils.h: access to the registers of the devices. A device is not part of the program: it is a
-- parameter, a state of its own that each volatile access may read and change. A message that a driver
-- prints is added to the console with its arguments: `uart_puts`, `uart_printf` and `log_message` here stand
-- for the calls of a driver, and leave the sending of the characters out, which waits for the port and is
-- modelled in Uart.Port and Uart.Print. `none` is a wait without a bound that has not
-- ended within its fuel.
pub mod Ends
pub mod Plain
pub mod Poll
use Prim.Native.String.{String}
use mathlib.Core.Bool.{Bool, true}
use kernel_team_project.Base.{
  ℕ, ◌≡◌, ◌∙◌, sym, inl, inr, arith, Option-cases, zero, suc, ◌+◌, ◌-◌, ◌%◌, Option, none, some,
  List, [], ◌∷◌, ◌++◌, ◌==◌, leb, if◌then◌else◌, bit_and, bit_or, add32, u32_mod,
}

-- A device with states `D`: what a read returns and leaves, and what a write leaves.
pub record Bus (D : Type 0) : Type 0 where
  pub load : (addr : ℕ) → D → ℕ × D
  pub store : (addr value : ℕ) → D → D

-- A text with the numbers that its `%d`s stand for.
abbrev pub Message : Type 0
Message = String × List ℕ

pub record Machine (D : Type 0) : Type 0 where
  pub dev : D
  pub console : List Message

abbrev pub Io : Type 0 → Type 0 → Type 0
Io D A = Machine D → Option (A × Machine D)

module _ {D : Type 0} where
  abbrev pub pure : {A : Type 0} → A → Io D A
  pure a m = some (a, m)

  infixl 5 ◌>>=◌ ◌>>◌
  abbrev pub ◌>>=◌ : {A B : Type 0} → Io D A → (A → Io D B) → Io D B
  ◌>>=◌ c f m = elim (c m) [ none ↦ none | some (a, m') ↦ f a m' ]

  abbrev pub ◌>>◌ : {B : Type 0} → Io D (Unit {0}) → Io D B → Io D B
  c >> k = c >>= λ _. k

  -- What follows a step that has been taken.
  pub run-bind :
      {A B : Type 0} (c : Io D A) (f : A → Io D B) {m m' : Machine D} {a : A}
      → c m ≡ some (a, m')
      → (c >>= f) m ≡ f a m'
  run-bind c f e = rw (e, ◌>>=◌)

  -- A sequence that has returned has made its first step.
  pub bind-inv :
      {A B : Type 0} (c : Io D A) (f : A → Io D B) (m : Machine D) {r : B × Machine D}
      → (c >>= f) m ≡ some r
      → (a : A) × (m' : Machine D) × (c m ≡ some (a, m')) × (f a m' ≡ some r)
  bind-inv c f m {r} e = elim (Option-cases (c m)) [
    | inl stopped ↦
        let none-some : none ≡ some r = sym (rw (stopped, ◌>>=◌)) ∙ e in absurd (ground arith)
    | inr (p, ran) ↦ (p.0, p.1, ran, sym (run-bind c f ran) ∙ e)
  ]

  -- A statement that does nothing.
  abbrev pub skip : Io D (Unit {0})
  skip = pure tt

  -- Out of fuel.
  abbrev pub stuck : {A : Type 0} → Io D A
  stuck m = none

  unfoldable pub uart_puts : String → Io D (Unit {0})
  uart_puts text m = some (tt, record m { console = m.console ++ (text, []) ∷ [] })

  unfoldable pub uart_printf : String → List ℕ → Io D (Unit {0})
  uart_printf text args m = some (tt, record m { console = m.console ++ (text, args) ∷ [] })

-- `if (b) uart_puts(text);`
abbrev pub puts_if : {D : Type 0} → Bool → String → Io D (Unit {0})
puts_if b text m =
    some (tt, record m { console = if b then m.console ++ (text, []) ∷ [] else m.console })

abbrev pub log_level_error : ℕ
log_level_error = 0

abbrev pub log_level_warn : ℕ
log_level_warn = 1

abbrev pub log_level_info : ℕ
log_level_info = 2

abbrev pub log_level_debug : ℕ
log_level_debug = 3

-- LOG_LEVEL, as it is where the build does not set it.
abbrev pub log_level : ℕ
log_level = log_level_info

unfoldable pub log_message : {D : Type 0} → ℕ → String → List ℕ → Io D (Unit {0})
unfolding uart_printf
log_message level text args = if leb level log_level then uart_printf text args else skip

-- `~mask` on 32 bits.
abbrev pub not32 : ℕ → ℕ
not32 mask = u32_mod - 1 - mask % u32_mod

-- `(reg & ~mask) | (value & mask)`
abbrev pub masked : (reg mask value : ℕ) → ℕ
masked reg mask value = bit_or (bit_and reg (not32 mask)) (bit_and value mask)

module _ {D : Type 0} (bus : Bus D) where
  -- `*reg` and `*reg = value`, at an address.
  abbrev pub read_at : ℕ → Io D ℕ
  read_at addr m = let (v, d) = bus.load addr m.dev in some (v, record m { dev = d })

  abbrev pub write_at : (addr value : ℕ) → Io D (Unit {0})
  write_at addr value m = some (tt, record m { dev = bus.store addr value m.dev })

  abbrev pub reg32_write : (base offset value : ℕ) → Io D (Unit {0})
  reg32_write base offset value = write_at (add32 base offset) value

  abbrev pub reg32_write_masked : (base offset mask value : ℕ) → Io D (Unit {0})
  reg32_write_masked base offset mask value = do
    reg ← read_at (add32 base offset)
    write_at (add32 base offset) (masked reg mask value)

  abbrev pub reg32_read : (base offset : ℕ) → Io D ℕ
  reg32_read base offset = read_at (add32 base offset)

  abbrev pub reg32_read_masked : (base offset mask : ℕ) → Io D ℕ
  reg32_read_masked base offset mask = do reg ← read_at (add32 base offset); pure (bit_and reg mask)

  -- `WAIT_FOR_REG32`: it ends when the bits are as expected, or when the time is over.
  unfoldable pub wait_for_reg32 : (base offset mask expected timeout : ℕ) → Io D (Unit {0})
  wait_for_reg32 base offset mask expected zero = do reg ← reg32_read_masked base offset mask; skip
  wait_for_reg32 base offset mask expected (suc timeout) =
      let rest = wait_for_reg32 base offset mask expected timeout in
      do reg ← reg32_read_masked base offset mask; if reg == expected then skip else rest

  -- `while (test(*reg));` with fuel.
  unfoldable pub wait_while : (fuel base offset : ℕ) → (test : ℕ → Bool) → Io D (Unit {0})
  wait_while zero base offset test = stuck
  wait_while (suc fuel) base offset test =
      let rest = wait_while fuel base offset test in
      do reg ← reg32_read base offset; if test reg then rest else skip

  -- `while (REG32_read_masked(...) != expected);` with fuel.
  unfoldable pub wait_until : (fuel base offset mask expected : ℕ) → Io D (Unit {0})
  wait_until zero base offset mask expected = stuck
  wait_until (suc fuel) base offset mask expected =
      let rest = wait_until fuel base offset mask expected in
      do reg ← reg32_read_masked base offset mask; if reg == expected then skip else rest

  -- `while (REG32_read_masked(...) != expected) if (--timeout == 0) return -1;` with a timeout that is
  -- one more than `timeout`: whether the bits came to be as expected.
  unfoldable pub poll : (base offset mask expected timeout : ℕ) → Io D Bool
  poll base offset mask expected zero = do
    reg ← reg32_read_masked base offset mask
    pure (reg == expected)
  poll base offset mask expected (suc timeout) =
      let rest = poll base offset mask expected timeout in
      do reg ← reg32_read_masked base offset mask; if reg == expected then pure true else rest
