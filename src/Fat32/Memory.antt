-- ===== src/Fat32/Memory.antt =====
-- Reading numbers and names out of bytes: `read_unaligned_uint32`, `read_unaligned_uint16` and
-- `memcmp` of os/fs/fat32.c.
use kernel_team_project.Base.{
  ℕ, zero, suc, ◌+◌, ◌*◌, ◌^◌, ◌<◌, ◌≡◌, refl, ap, ap₂, ◌∙◌, ℤ, pos, negsuc, ◌-◌, arith, ◌==◌, ltb,
  if◌then◌else◌, bit_or, ◌<<◌, bit_or_add, eq→==,
}
use kernel_team_project.Fat32.Types.{Bytes}

-- At the address of the byte at `i`.
unfoldable pub read_unaligned_uint32 : Bytes → ℕ → ℕ
read_unaligned_uint32 p i =
    bit_or (bit_or (bit_or (p i) (p (i + 1) << 8)) (p (i + 2) << 16)) (p (i + 3) << 24)

unfoldable pub read_unaligned_uint16 : Bytes → ℕ → ℕ
read_unaligned_uint16 p i = bit_or (p i) (p (i + 1) << 8)

abbrev pub AreBytes : Bytes → Type 0
AreBytes p = (i : ℕ) → p i < 256

-- The little-endian value of the `n` bytes at `i`.
unfoldable pub little_endian : ℕ → Bytes → ℕ → ℕ
little_endian zero p i = 0
little_endian (suc n) p i = p i + 256 * little_endian n p (i + 1)

or_bytes :
    (a b c d : ℕ)
    → a < 256
    → b < 256
    → c < 256
    → bit_or (bit_or (bit_or a (b << 8)) (c << 16)) (d << 24)
      ≡ a + b * 2 ^ 8 + c * 2 ^ 16 + d * 2 ^ 24
or_bytes a b c d ha hb hc =
    ap (λ t. bit_or (bit_or t (c << 16)) (d << 24)) (bit_or_add 8 a b ha)
    ∙ ap (λ t. bit_or t (d << 24)) (bit_or_add 16 (a + b * 2 ^ 8) c (omega arith))
    ∙ bit_or_add 24 (a + b * 2 ^ 8 + c * 2 ^ 16) d (omega arith)

-- The two unaligned reads are the little-endian values of four and of two bytes.
pub read_unaligned_lem :
    (p : Bytes) (i : ℕ)
    → AreBytes p
    → (read_unaligned_uint32 p i ≡ little_endian 4 p i)
      × (read_unaligned_uint16 p i ≡ little_endian 2 p i)
unfolding read_unaligned_uint32 read_unaligned_uint16 little_endian
read_unaligned_lem p i h =
    let two : i + 2 ≡ i + 1 + 1 = omega arith in
    let three : i + 3 ≡ i + 1 + 1 + 1 = omega arith in
    (
      or_bytes (p i) (p (i + 1)) (p (i + 2)) (p (i + 3)) (h i) (h (i + 1)) (h (i + 2))
          ∙ ap₂ (λ x y. p i + p (i + 1) * 2 ^ 8 + x * 2 ^ 16 + y * 2 ^ 24) (ap p two) (ap p three)
          ∙ omega arith,
      bit_or_add 8 (p i) (p (i + 1)) (h i) ∙ omega arith,
    )

-- `memcmp(s1, s2, n)`: the difference of the first bytes that differ, or 0.
unfoldable pub memcmp : Bytes → Bytes → ℕ → ℤ
memcmp s1 s2 zero = pos 0
memcmp s1 s2 (suc n) =
    let rest = memcmp (λ i. s1 (suc i)) (λ i. s2 (suc i)) n in
    if s1 0 == s2 0
    then rest
    else if ltb (s1 0) (s2 0)
    then negsuc (s2 0 - s1 0 - 1)
    else pos (s1 0 - s2 0)

memcmp_step :
    (n : ℕ) (s1 s2 : Bytes)
    → memcmp s1 s2 (suc n) ≡ pos 0
    → (s1 0 ≡ s2 0) × (memcmp (λ i. s1 (suc i)) (λ i. s2 (suc i)) n ≡ pos 0)
unfolding memcmp
memcmp_step n s1 s2 e = ground arith

-- It is 0 for equal memory only.
pub memcmp-zero : (n : ℕ) (s1 s2 : Bytes) → memcmp s1 s2 n ≡ pos 0 → (i : ℕ) → i < n → s1 i ≡ s2 i
unfolding memcmp
memcmp-zero zero s1 s2 e i h = absurd (omega arith)
memcmp-zero (suc n) s1 s2 e zero h = (memcmp_step n s1 s2 e).0
memcmp-zero (suc n) s1 s2 e (suc i) h =
    memcmp-zero n (λ j. s1 (suc j)) (λ j. s2 (suc j)) (memcmp_step n s1 s2 e).1 i (omega arith)

pub memcmp-eq : (n : ℕ) (s1 s2 : Bytes) → ((i : ℕ) → i < n → s1 i ≡ s2 i) → memcmp s1 s2 n ≡ pos 0
unfolding memcmp
memcmp-eq zero s1 s2 h = refl
memcmp-eq (suc n) s1 s2 h =
    rw (eq→== (s1 0) (s2 0) (h 0 (omega arith)))
      (memcmp-eq n (λ j. s1 (suc j)) (λ j. s2 (suc j)) (λ i hi. h (suc i) (omega arith)))
