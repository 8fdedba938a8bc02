-- ===== src/Uart/Numbers.antt =====
-- The numerals that `print_number` of os/drivers/uart.c prints.
use kernel_team_project.Base.{
  ℕ, zero, suc, ◌+◌, ◌-◌, ◌*◌, ◌/◌, ◌%◌, ◌≤◌, ◌<◌, ◌≡◌, ◌∙◌, ◌⊎◌, inl, inr, refl, sym, ap, Bool,
  true, false, List, [], ◌∷◌, ◌++◌, arith, ◌==◌, ◌&&◌, ltb, leb, if◌then◌else◌, ne→not-==, u32_mod,
  ◌≢◌, lt→ltb, le→leb, ==→eq, Bool-cases,
}
use mathlib.Core.Path.{subst}
use native.Mathlib.Nat.{div-add-mod, mod-lt}
use kernel_team_project.Uart.{digit_char, low_digits, reversed, print_number}

-- The value of a digit, and of a numeral in a base.
unfoldable pub digit_value : ℕ → ℕ
digit_value c = if ltb c b'a' then c - b'0' else c - b'a' + 10

unfoldable pub numeral : (base value : ℕ) → List ℕ → ℕ
numeral base value [] = value
numeral base value (c ∷ s) = numeral base (value * base + digit_value c) s

-- The value of digits that are stored the lowest one first.
low_value : ℕ → List ℕ → ℕ
low_value base [] = 0
low_value base (c ∷ s) = low_value base s * base + digit_value c

-- The bases that are printed.
abbrev pub IsBase : ℕ → Type 0
IsBase base = (base ≡ 10) ⊎ (base ≡ 16)

-- A digit of a base, in lower case.
abbrev pub IsDigit : (base c : ℕ) → Type 0
IsDigit base c = ((b'0' ≤ c) × (c ≤ b'9')) ⊎ ((base ≡ 16) × ((b'a' ≤ c) × (c ≤ b'f')))

abbrev pub AreDigits : (base : ℕ) → List ℕ → Type 0
AreDigits base [] = Unit {0}
AreDigits base (c ∷ s) = IsDigit base c × AreDigits base s

-- The text starts, and it ends, with something else than a zero.
abbrev pub Leads : List ℕ → Type 0
Leads [] = ⊥
Leads (c ∷ s) = c ≢ b'0'

abbrev Trails : List ℕ → Type 0
Trails [] = ⊥
Trails (c ∷ []) = c ≢ b'0'
Trails (c ∷ d ∷ s) = Trails (d ∷ s)

-- The numeral of a value: digits of the base, without a leading zero unless it is "0".
pub record IsNumeral (base value : ℕ) (s : List ℕ) : Type 0 where
  pub digits : AreDigits base s
  pub leading : (s ≡ b'0' ∷ []) ⊎ Leads s
  pub evaluates : numeral base 0 s ≡ value

digit_value-char : (d : ℕ) → d < 16 → digit_value (digit_char d) ≡ d
unfolding digit_value
digit_value-char d h = ground arith

smaller : (base n : ℕ) → IsBase base → 0 < n → n / base < n
smaller base n (inl ten) h = rw ten (omega arith)
smaller base n (inr sixteen) h = rw sixteen (omega arith)

low_value-digits :
    (base : ℕ) → IsBase base → (fuel n : ℕ) → n ≤ fuel → low_value base (low_digits base fuel n) ≡ n
unfolding low_value low_digits
low_value-digits base h zero n enough = omega arith
low_value-digits base h (suc fuel) n enough = elim (Bool-cases (ltb 0 n)) [
  | inr none_left ↦ rw none_left (ground arith)
  | inl some_left ↦
      let positive : 0 < n = ground arith in
      let rest =
        low_value-digits base h fuel (n / base) (omega (arith, smaller base n h positive)) in
      let digit : digit_value (digit_char (n % base)) ≡ n % base =
        digit_value-char (n % base) (omega (arith, mod-lt n {m = base} (omega arith))) in
      rw (some_left, rest, digit) (omega (arith, div-add-mod n base))
]

numeral-snoc :
    (base : ℕ) (s : List ℕ) (value c : ℕ)
    → numeral base value (s ++ c ∷ []) ≡ numeral base value s * base + digit_value c
unfolding numeral
numeral-snoc base [] value c = refl
numeral-snoc base (d ∷ s) value c = numeral-snoc base s (value * base + digit_value d) c

numeral-reversed : (base : ℕ) (s : List ℕ) → numeral base 0 (reversed s) ≡ low_value base s
unfolding numeral reversed low_value
numeral-reversed base [] = refl
numeral-reversed base (c ∷ s) =
    numeral-snoc base (reversed s) 0 c
    ∙ ap (λ t. t * base + digit_value c) (numeral-reversed base s)

digit_char-nonzero : (d : ℕ) → 0 < d → digit_char d ≢ b'0'
digit_char-nonzero d h e = ground arith

digit_char-IsDigit : (base d : ℕ) → IsBase base → d < base → IsDigit base (digit_char d)
digit_char-IsDigit base d (inl ten) h = inl (ground arith)
digit_char-IsDigit base d (inr sixteen) h = elim (Bool-cases (ltb d 10)) [
  | inl low ↦ inl (ground arith)
  | inr high ↦ inr (sixteen, ground arith)
]

low_digits-AreDigits :
    (base : ℕ) → IsBase base → (fuel n : ℕ) → AreDigits base (low_digits base fuel n)
unfolding low_digits
low_digits-AreDigits base h zero n = tt
low_digits-AreDigits base h (suc fuel) n = elim (Bool-cases (ltb 0 n)) [
  | inr none_left ↦ rw none_left tt
  | inl some_left ↦
      let positive : 0 < base = ground arith in
      rw some_left (
        digit_char-IsDigit base (n % base) h (mod-lt n {m = base} positive),
        low_digits-AreDigits base h fuel (n / base),
      )
]

AreDigits-snoc :
    (base : ℕ) (s : List ℕ) (c : ℕ)
    → AreDigits base s
    → IsDigit base c
    → AreDigits base (s ++ c ∷ [])
AreDigits-snoc base [] c hs h = (h, tt)
AreDigits-snoc base (d ∷ s) c hs h = (hs.0, AreDigits-snoc base s c hs.1 h)

reversed-AreDigits : (base : ℕ) (s : List ℕ) → AreDigits base s → AreDigits base (reversed s)
unfolding reversed
reversed-AreDigits base [] h = tt
reversed-AreDigits base (c ∷ s) h =
    AreDigits-snoc base (reversed s) c (reversed-AreDigits base s h.1) h.0

Trails-cons : (c : ℕ) (s : List ℕ) → Trails s → Trails (c ∷ s)
Trails-cons c [] h = absurd h
Trails-cons c (d ∷ s) h = h

Leads-snoc : (s : List ℕ) (c : ℕ) → Leads s → Leads (s ++ c ∷ [])
Leads-snoc [] c h = absurd h
Leads-snoc (d ∷ s) c h = h

reversed-Leads : (s : List ℕ) → Trails s → Leads (reversed s)
unfolding reversed
reversed-Leads [] h = absurd h
reversed-Leads (c ∷ []) h = h
reversed-Leads (c ∷ d ∷ s) h = Leads-snoc (reversed (d ∷ s)) c (reversed-Leads (d ∷ s) h)

low_digits-none : (base fuel : ℕ) → low_digits base fuel 0 ≡ []
unfolding low_digits
low_digits-none base zero = refl
low_digits-none base (suc fuel) = refl

-- The highest digit of a number that is not 0 is not 0.
low_digits-Trails :
    (base : ℕ) → IsBase base → (fuel n : ℕ) → n ≤ fuel → 0 < n → Trails (low_digits base fuel n)
unfolding low_digits
low_digits-Trails base h zero n enough positive = absurd (omega arith)
low_digits-Trails base h (suc fuel) n enough positive = elim (Bool-cases (n / base == 0)) [
  | inl last_one ↦
      let none_left : n / base ≡ 0 = ==→eq (n / base) 0 last_one in
      let split : base * 0 + n % base ≡ n =
        subst (λ q. base * q + n % base ≡ n) none_left (div-add-mod n base) in
      let whole : n % base ≡ n = omega (arith, split) in
      rw (lt→ltb 0 n positive, none_left, low_digits-none base fuel)
        (subst (λ d. digit_char d ≢ b'0') (sym whole) (digit_char-nonzero n positive))
  | inr more ↦
      let left : 0 < n / base = ground (arith, more) in
      rw (lt→ltb 0 n positive) (
        Trails-cons (digit_char (n % base)) (low_digits base fuel (n / base)) (
          low_digits-Trails base h fuel (n / base) (omega (arith, smaller base n h positive)) left))
]

reversed-snoc : (s : List ℕ) (c : ℕ) → reversed (s ++ c ∷ []) ≡ c ∷ reversed s
unfolding reversed
reversed-snoc [] c = refl
reversed-snoc (d ∷ s) c = ap (λ l. l ++ d ∷ []) (reversed-snoc s c)

numeral-zero : (base : ℕ) → numeral base 0 (b'0' ∷ []) ≡ 0
unfolding numeral digit_value
numeral-zero base = omega arith

-- A number that is not printed as a negative one is printed as the numeral of its value in base 10 or 16:
-- at least one digit, each one of the base and in lower case, and no leading zero but in "0".
pub print_number_lem :
    (num base : ℕ) (is_signed : Bool)
    → IsBase base
    → (leb 0x80000000 num && (base == 10) && is_signed) ≡ false
    → IsNumeral base num (print_number num base is_signed)
unfolding print_number
print_number_lem num base is_signed h positive = elim (Bool-cases (num == 0)) [
  | inl nothing ↦ rw nothing (record {
    digits = (inl (omega arith, omega arith), tt);
    leading = inl refl;
    evaluates = numeral-zero base ∙ sym (==→eq num 0 nothing);
  })
  | inr number ↦
      rw (number, positive)
        (record {
          digits =
              reversed-AreDigits base (low_digits base num num)
                (low_digits-AreDigits base h num num);
          leading = inr (
              reversed-Leads (low_digits base num num)
                (low_digits-Trails base h num num (omega arith) (ground arith)));
          evaluates =
              numeral-reversed base (low_digits base num num)
              ∙ low_value-digits base h num num (omega arith);
        })
]

-- A negative number is printed in base 10 as a minus sign and the numeral of what it lacks to 0.
pub print_number_negative :
    (num : ℕ)
    → 0x80000000 ≤ num
    → num < u32_mod
    → (s : List ℕ) × (print_number num 10 true ≡ b'-' ∷ s) × (numeral 10 0 s ≡ u32_mod - num)
unfolding print_number reversed
print_number_negative num negative small =
    let n = u32_mod - num in
    (
      reversed (low_digits 10 n n),
      rw (ne→not-== num 0 (omega arith), le→leb 0x80000000 num negative)
          (reversed-snoc (low_digits 10 n n) b'-'),
      numeral-reversed 10 (low_digits 10 n n) ∙ low_value-digits 10 (inl refl) n n (omega arith),
    )
