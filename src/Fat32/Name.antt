-- ===== src/Fat32/Name.antt =====
-- `format_name_to_fat32` of os/fs/fat32.c: the 8.3 form in which directories hold names.
use kernel_team_project.Base.{
  ℕ, zero, suc, ◌+◌, ◌<◌, ◌≡◌, ◌≢◌, refl, ap, ap₂, ◌∙◌, Option, none, some, List, [], ◌∷◌, ◌++◌,
  arith, ◌==◌, ltb, if◌then◌else◌, length, drop, tabulate, tabulate-ext, map,
}
use mathlib.Core.Option
use kernel_team_project.Fat32.Strings.{Text, char_at, strchr, strlen, toupper, NoNul, strlen-length}

abbrev pub space : ℕ
space = b' '

abbrev pub dot : ℕ
dot = b'.'

-- `name_len` and `ext_len`: the lengths of the part in front of the dot and of the part behind it.
unfoldable pub name_len : Text → Option ℕ → ℕ
name_len input none = strlen input
name_len input (some ext_pos) = ext_pos

unfoldable pub ext_len : Text → Option ℕ → ℕ
ext_len input none = 0
ext_len input (some ext_pos) = strlen (drop (ext_pos + 1) input)

-- What the code writes at `i` of a field whose text has `len` characters.
abbrev pub cell : ℕ → (ℕ → ℕ) → ℕ → ℕ
cell len get i = if ltb i len then toupper (get i) else space

-- `output[8 + i]`, with the test that there is an extension.
unfoldable pub ext_char : Text → Option ℕ → ℕ → ℕ
ext_char input none i = space
ext_char input (some ext_pos) i =
    cell (ext_len input (some ext_pos)) (λ k. char_at input (ext_pos + 1 + k)) i

-- The two loops, once `ext_pos` is known.
unfoldable pub write_fields : Text → Option ℕ → List ℕ
write_fields input ext_pos =
    tabulate 8 (cell (name_len input ext_pos) (char_at input))
    ++ tabulate 3 (ext_char input ext_pos)

-- The eleven bytes written to `output`.
unfoldable pub format_name_to_fat32 : Text → List ℕ
format_name_to_fat32 input = write_fields input (strchr input dot)

pub length-format : (input : Text) → length (format_name_to_fat32 input) ≡ 11
unfolding format_name_to_fat32 write_fields
length-format input = refl

-- A field of a directory name: `n` characters in capitals, filled up with spaces.
unfoldable pub field : ℕ → Text → Text
field zero s = []
field (suc n) [] = space ∷ field n []
field (suc n) (c ∷ s) = toupper c ∷ field n s

-- No character is a dot.
abbrev pub NoDot : Text → Type 0
NoDot [] = Unit
NoDot (c ∷ s) = (c ≢ dot) × NoDot s

field_lem :
    (n : ℕ) (s : Text) (get : ℕ → ℕ)
    → ((i : ℕ) → i < length s → get i ≡ char_at s i)
    → tabulate n (cell (length s) get) ≡ field n s
unfolding field
field_lem zero s get h = refl
field_lem (suc n) [] get h =
    ap (λ l. space ∷ l)
      (tabulate-ext n (λ k. cell 0 get (suc k)) (cell 0 get) (λ k hk. ground arith)
        ∙ field_lem n [] get h)
field_lem (suc n) (c ∷ s) get h = ap₂ ◌∷◌ (ground (arith, ap toupper (h 0 (omega arith)))) (
    tabulate-ext n (λ k. cell (suc (length s)) get (suc k)) (cell (length s) (λ k. get (suc k)))
      (λ k hk. ground arith)
    ∙ field_lem n s (λ k. get (suc k)) (λ k hk. h (suc k) (omega arith)))

blanks : (n : ℕ) → tabulate n (λ _. space) ≡ field n []
unfolding field
blanks zero = refl
blanks (suc n) = ap (λ l. space ∷ l) (blanks n)

strchr-dot : (s rest : Text) → NoNul s → NoDot s → strchr (s ++ dot ∷ rest) dot ≡ some (length s)
unfolding strchr
strchr-dot [] rest h d = refl
strchr-dot (c ∷ s) rest h d =
    ground (arith, strchr-dot s rest, ap (Option.map suc) (strchr-dot s rest h.1 d.1))

strchr-none : (s : Text) → NoNul s → NoDot s → strchr s dot ≡ none
unfolding strchr
strchr-none [] h d = refl
strchr-none (c ∷ s) h d = ground (arith, strchr-none s, ap (Option.map suc) (strchr-none s h.1 d.1))

drop_behind : (s rest : Text) (c n : ℕ) → n ≡ length s + 1 → drop n (s ++ c ∷ rest) ≡ rest
drop_behind s rest c zero e = absurd (omega arith)
drop_behind [] rest c (suc n) e = ap (λ m. drop m rest) {y = 0} (omega arith)
drop_behind (x ∷ s) rest c (suc n) e = drop_behind s rest c n (omega arith)

char_at_behind :
    (s rest : Text) (c i n : ℕ) → n ≡ length s + 1 + i → char_at (s ++ c ∷ rest) n ≡ char_at rest i
char_at_behind s rest c i zero e = absurd (omega arith)
char_at_behind [] rest c i (suc n) e = ap (char_at rest) (omega arith)
char_at_behind (x ∷ s) rest c i (suc n) e = char_at_behind s rest c i n (omega arith)

char_at_front : (s rest : Text) (i : ℕ) → i < length s → char_at (s ++ rest) i ≡ char_at s i
char_at_front [] rest i h = absurd (omega arith)
char_at_front (x ∷ s) rest zero h = refl
char_at_front (x ∷ s) rest (suc i) h = char_at_front s rest i (omega arith)

-- A name with a dot is written as its two parts, each cut or filled up to its width and in
-- capitals; a name without one fills the first part, and the second is blank.
pub format_fields :
    (base ext : Text)
    → NoNul base
    → NoDot base
    → NoNul ext
    → (format_name_to_fat32 (base ++ dot ∷ ext) ≡ field 8 base ++ field 3 ext)
      × (format_name_to_fat32 base ≡ field 8 base ++ field 3 [])
unfolding format_name_to_fat32 write_fields name_len ext_len ext_char
format_fields base ext hb hd he = (
  rw (strchr-dot base ext hb hd) (
      ap₂ ◌++◌ (field_lem 8 base (char_at (base ++ dot ∷ ext)) (char_at_front base (dot ∷ ext))) (
        rw (drop_behind base ext dot (length base + 1) refl, strlen-length ext he)
          (field_lem 3 ext (λ i. char_at (base ++ dot ∷ ext) (length base + 1 + i))
            (λ i hi. char_at_behind base ext dot i (length base + 1 + i) refl)))),
  rw (strchr-none base hb hd, strlen-length base hb)
      (ap₂ ◌++◌ (field_lem 8 base (char_at base) (λ i hi. refl)) (blanks 3)),
)

toupper_same :
    (c : ℕ)
    → (toupper (toupper c) ≡ toupper c)
      × ((toupper c == 0) ≡ (c == 0))
      × ((toupper c == dot) ≡ (c == dot))
unfolding toupper
toupper_same c = ground arith

strchr-toupper : (s : Text) → strchr (map toupper s) dot ≡ strchr s dot
unfolding strchr
strchr-toupper [] = refl
strchr-toupper (c ∷ s) = ground (arith, toupper_same c, ap (Option.map suc) (strchr-toupper s))

strlen-toupper : (s : Text) → strlen (map toupper s) ≡ strlen s
unfolding strlen
strlen-toupper [] = refl
strlen-toupper (c ∷ s) = ground (arith, toupper_same c, strlen-toupper s)

char_at-toupper : (s : Text) (i : ℕ) → toupper (char_at (map toupper s) i) ≡ toupper (char_at s i)
char_at-toupper [] i = refl
char_at-toupper (c ∷ s) zero = (toupper_same c).0
char_at-toupper (c ∷ s) (suc i) = char_at-toupper s i

drop-toupper : (n : ℕ) (s : Text) → drop n (map toupper s) ≡ map toupper (drop n s)
drop-toupper zero s = refl
drop-toupper (suc n) [] = refl
drop-toupper (suc n) (c ∷ s) = drop-toupper n s

name_len-toupper : (s : Text) (e : Option ℕ) → name_len (map toupper s) e ≡ name_len s e
unfolding name_len
name_len-toupper s none = strlen-toupper s
name_len-toupper s (some at) = refl

ext_char-toupper : (s : Text) (e : Option ℕ) (i : ℕ) → ext_char (map toupper s) e i ≡ ext_char s e i
unfolding ext_char ext_len
ext_char-toupper s none i = refl
ext_char-toupper s (some at) i =
    rw (drop-toupper (at + 1) s, strlen-toupper (drop (at + 1) s), char_at-toupper s (at + 1 + i))

fields-toupper : (s : Text) (e : Option ℕ) → write_fields (map toupper s) e ≡ write_fields s e
unfolding write_fields
fields-toupper s e =
    ap₂ ◌++◌
      (tabulate-ext 8 (cell (name_len (map toupper s) e) (char_at (map toupper s)))
        (cell (name_len s e) (char_at s)) (λ i hi. rw (name_len-toupper s e, char_at-toupper s i)))
      (tabulate-ext 3 (ext_char (map toupper s) e) (ext_char s e) (λ i hi. ext_char-toupper s e i))

-- Names are formatted, and so looked up, without regard to case.
pub format_case : (s : Text) → format_name_to_fat32 (map toupper s) ≡ format_name_to_fat32 s
unfolding format_name_to_fat32
format_case s =
    ap (write_fields (map toupper s)) (strchr-toupper s) ∙ fields-toupper s (strchr s dot)
