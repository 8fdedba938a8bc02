-- ===== src/Base/Bits.antt =====
-- Laws of `&` and `|` at every width: a mask of low ones is a remainder, and fields that do not
-- overlap add up.
use Prim.Native.Nat.{
  ℕ, zero, suc, ◌+◌, ◌-◌, ◌*◌, ◌/◌, ◌%◌, ◌^◌, ◌≤◌, ◌<◌, min, max, bit_and, bit_or, digits,
  bit_and-bitwise, bit_or-bitwise,
}
use mathlib.Core.Path.{◌≡◌, refl, sym, ap, ap₂, ◌∙◌}
use native.Mathlib.Nat.{pow-suc, one-le-pow, div-add-mod, div-div-eq-div-mul}
use native.Mathlib.Omega.{arith}

-- The digit recursion of both operations does not depend on rounds to spare.
module _ (rest : ℕ → ℕ) (digit : ℕ → ℕ → ℕ) where
  spare_rounds :
      (x y : ℕ) {k l : ℕ} → x ≤ k → x ≤ l → digits rest digit k x y ≡ digits rest digit l x y
  spare_rounds x y {k} {l} hk hl = go k l x y hk hl
    where
      go : (k l x y : ℕ) → x ≤ k → x ≤ l → digits rest digit k x y ≡ digits rest digit l x y
      go zero zero x y hk hl = refl
      go zero (suc l) zero y hk hl = refl
      go zero (suc l) (suc x) y hk hl = absurd (omega arith)
      go (suc k) zero zero y hk hl = refl
      go (suc k) zero (suc x) y hk hl = absurd (omega arith)
      go (suc k) (suc l) zero y hk hl = refl
      go (suc k) (suc l) (suc x) y hk hl =
          ap (λ t. t * 2 + digit (suc x % 2) (y % 2))
            (go k l (suc x / 2) (y / 2) (omega arith) (omega arith))

pub bit_or_none : (y : ℕ) → bit_or 0 y ≡ y
bit_or_none y = bit_or-bitwise 0 y

-- One binary digit of each.
bit_and_halves : (x y : ℕ) → bit_and x y ≡ 2 * bit_and (x / 2) (y / 2) + min (x % 2) (y % 2)
bit_and_halves zero y = omega (arith, bit_and-bitwise 0 y, bit_and-bitwise 0 (y / 2))
bit_and_halves (suc x) y =
    let shorter =
      spare_rounds (λ _. zero) min (suc x / 2) (y / 2) {k = x} {l = suc x / 2} (omega arith)
        (omega arith) in
    omega (arith, shorter, bit_and-bitwise (suc x) y, bit_and-bitwise (suc x / 2) (y / 2))

bit_or_halves : (x y : ℕ) → bit_or x y ≡ 2 * bit_or (x / 2) (y / 2) + max (x % 2) (y % 2)
bit_or_halves zero y = omega (arith, bit_or_none y, bit_or_none (y / 2))
bit_or_halves (suc x) y =
    let shorter =
      spare_rounds (λ t. t) max (suc x / 2) (y / 2) {k = x} {l = suc x / 2} (omega arith)
        (omega arith) in
    omega (arith, shorter, bit_or-bitwise (suc x) y, bit_or-bitwise (suc x / 2) (y / 2))

bit_and_none_below : (k x : ℕ) → x ≤ k → bit_and x 0 ≡ 0
bit_and_none_below zero x h = let e : x ≡ 0 = omega arith in rw e (bit_and-bitwise 0 0)
bit_and_none_below (suc k) x h =
    omega (arith, bit_and_halves x 0, bit_and_none_below k (x / 2) (omega arith))

bit_and_none : (x : ℕ) → bit_and x 0 ≡ 0
bit_and_none x = bit_and_none_below x x (omega arith)

two-pow-suc : (q k : ℕ) → q * 2 ^ suc k ≡ 2 * (q * 2 ^ k)
two-pow-suc q k = omega (arith, ap (λ (t : ℕ). q * t) (pow-suc 2 k))

-- A low field below another that starts at bit `k`.
pub bit_or_add : (k r q : ℕ) → r < 2 ^ k → bit_or r (q * 2 ^ k) ≡ r + q * 2 ^ k
bit_or_add zero r q h =
    let none_left : r ≡ 0 = omega arith in rw none_left (omega (arith, bit_or_none (q * 2 ^ 0)))
bit_or_add (suc k) r q h = ground (
  arith,
  bit_or_halves r (q * 2 ^ suc k),
  two-pow-suc q k,
  pow-suc 2 k,
  bit_or_add k (r / 2) q (omega (arith, pow-suc 2 k)),
)

mod_double : (a m : ℕ) → a % (2 * m) ≡ a / 2 % m * 2 + a % 2
mod_double a m =
    let quotient : m * (a / 2 / m) ≡ m * (a / (2 * m)) =
      ap (λ t. m * t) (div-div-eq-div-mul a 2 m) in
    omega (arith, div-add-mod a (2 * m), div-add-mod (a / 2) m, quotient)

-- A mask of `k` low ones.
pub bit_and_low : (k a : ℕ) → bit_and a (2 ^ k - 1) ≡ a % 2 ^ k
bit_and_low zero a = omega (arith, bit_and_none a)
bit_and_low (suc k) a = ground (
  arith,
  bit_and_halves a (2 ^ suc k - 1),
  pow-suc 2 k,
  one-le-pow k 2,
  bit_and_low k (a / 2),
  mod_double a (2 ^ k),
)

bit_or_comm_below : (n a b : ℕ) → a ≤ n → b ≤ n → bit_or a b ≡ bit_or b a
bit_or_comm_below zero a b ha hb =
    let none_a : a ≡ 0 = omega arith in let none_b : b ≡ 0 = omega arith in rw (none_a, none_b)
bit_or_comm_below (suc n) a b ha hb = omega (
  arith,
  bit_or_halves a b,
  bit_or_halves b a,
  bit_or_comm_below n (a / 2) (b / 2) (omega arith) (omega arith),
)

pub bit_or_comm : (a b : ℕ) → bit_or a b ≡ bit_or b a
bit_or_comm a b = bit_or_comm_below (a + b) a b (omega arith) (omega arith)

-- A low field joined to a number that has another one in its low bits.
pub bit_or_low :
    (k a b q : ℕ) → a < 2 ^ k → b < 2 ^ k → bit_or (a + q * 2 ^ k) b ≡ bit_or a b + q * 2 ^ k
bit_or_low zero a b q ha hb =
    let none_a : a ≡ 0 = omega arith in
    let none_b : b ≡ 0 = omega arith in
    rw (none_a, none_b)
      (bit_or_comm (0 + q * 2 ^ 0) 0 ∙ omega (arith, bit_or_none (0 + q * 2 ^ 0), bit_or_none 0))
bit_or_low (suc k) a b q ha hb = ground (
  arith,
  bit_or_halves (a + q * 2 ^ suc k) b,
  bit_or_halves a b,
  two-pow-suc q k,
  pow-suc 2 k,
  bit_or_low k (a / 2) (b / 2) q (omega (arith, pow-suc 2 k)) (omega (arith, pow-suc 2 k)),
)

-- Low zeros in common.
pub bit_and_high : (k x y : ℕ) → bit_and (x * 2 ^ k) (y * 2 ^ k) ≡ bit_and x y * 2 ^ k
bit_and_high zero x y =
    let one : (z : ℕ) → z * 2 ^ 0 ≡ z = λ z. omega arith in
    ap₂ bit_and (one x) (one y) ∙ sym (one (bit_and x y))
bit_and_high (suc k) x y = ground (
  arith,
  bit_and_halves (x * 2 ^ suc k) (y * 2 ^ suc k),
  two-pow-suc x k,
  two-pow-suc y k,
  two-pow-suc (bit_and x y) k,
  bit_and_high k x y,
)

-- No bits below those of a mask.
pub bit_and_below : (k v c : ℕ) → bit_and v (c * 2 ^ k) % 2 ^ k ≡ 0
bit_and_below zero v c = omega arith
bit_and_below (suc k) v c = ground (
  arith,
  bit_and_halves v (c * 2 ^ suc k),
  two-pow-suc c k,
  pow-suc 2 k,
  bit_and_below k (v / 2) c,
  mod_double (bit_and v (c * 2 ^ suc k)) (2 ^ k),
)
