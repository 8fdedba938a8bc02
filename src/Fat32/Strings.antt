-- ===== src/Fat32/Strings.antt =====
-- The string functions of os/fs/fat32.c: `strchr`, `strlen`, `toupper` and `strncpy`. A string is the
-- list of the characters from its address on; it ends at its first NUL, and at the end of the list.
use kernel_team_project.Base.{
  ℕ, zero, suc, ◌-◌, ◌<◌, ◌≡◌, ◌≢◌, refl, ◌&&◌, Option, none, some, List, [], ◌∷◌, ◌++◌, arith,
  ◌==◌, leb, if◌then◌else◌, get_or, length, drop, ◌⊎◌, ◌!=◌,
}
use mathlib.Core.Option

abbrev pub Text : Type 0
Text = List ℕ

abbrev pub char_at : Text → ℕ → ℕ
char_at s i = get_or s i 0

-- The offset of the first `ch`; `none` is NULL.
unfoldable pub strchr : Text → ℕ → Option ℕ
strchr [] ch = if ch == 0 then some 0 else none
strchr (c ∷ s) ch =
    let rest = Option.map suc (strchr s ch) in
    if c != 0 then if c == ch then some 0 else rest else if ch == 0 then some 0 else none

unfoldable pub strlen : Text → ℕ
strlen [] = 0
strlen (c ∷ s) = let rest = suc (strlen s) in if c != 0 then rest else 0

unfoldable pub toupper : ℕ → ℕ
toupper c = if leb b'a' c && leb c b'z' then c - 32 else c

-- The `n` bytes that `strncpy(dest, src, n)` stores at `dest`.
unfoldable pub strncpy : Text → ℕ → Text
strncpy src zero = []
strncpy [] (suc n) = 0 ∷ strncpy [] n
strncpy (c ∷ src) (suc n) =
    let copied = c ∷ strncpy src n in
    let padded = 0 ∷ strncpy [] n in if c != 0 then copied else padded

-- No character is a NUL.
abbrev pub NoNul : Text → Type 0
NoNul [] = Unit
NoNul (c ∷ s) = (c ≢ 0) × NoNul s

pub strlen-length : (s : Text) → NoNul s → strlen s ≡ length s
unfolding strlen
strlen-length [] h = refl
strlen-length (c ∷ s) h = ground (arith, strlen-length s)

pub strncpy-append : (s rest : Text) → NoNul s → strncpy (s ++ rest) (length s) ≡ s
unfolding strncpy
strncpy-append [] rest h = refl
strncpy-append (c ∷ s) rest h = ground (arith, strncpy-append s rest)

pub char_at-append : (s t : Text) → char_at (s ++ t) (length s) ≡ char_at t 0
char_at-append [] t = refl
char_at-append (c ∷ s) t = char_at-append s t

pub drop-append : (s t : Text) → drop (length s) (s ++ t) ≡ t
drop-append [] t = refl
drop-append (c ∷ s) t = drop-append s t

pub NoNul-append : (s t : Text) → NoNul s → NoNul t → NoNul (s ++ t)
NoNul-append [] t hs ht = ht
NoNul-append (c ∷ s) t hs ht = (hs.0, NoNul-append s t hs.1 ht)

pub toupper_idem : (c : ℕ) → toupper (toupper c) ≡ toupper c
unfolding toupper
toupper_idem c = ground arith

pub toupper-== : (c d : ℕ) → (b'z' < d) ⊎ (d < b'A') → (toupper c == d) ≡ (c == d)
unfolding toupper
toupper-== c d h = ground arith
