-- ===== src/Fat32/Path.antt =====
-- `parse_fat32_path` of os/fs/fat32.c, against splitting at the slashes.
use kernel_team_project.Base.{
  ℕ, zero, suc, ◌+◌, ◌-◌, ◌≤◌, ◌<◌, ◌≡◌, refl, ap, ap₂, sym, ◌∙◌, Bool, true, false, ◌&&◌, ◌||◌,
  List, [], ◌∷◌, ◌++◌, arith, ◌==◌, ltb, if◌then◌else◌, length, length-append, take, drop, inl, inr,
  Bool-cases, lt→ltb, ne→not-==,
}
use mathlib.Core.List.{append_assoc, append-nil}
use kernel_team_project.Fat32.Types.{max_components, max_component_length}
use kernel_team_project.Fat32.Strings.{
  Text, char_at, strlen, strncpy, NoNul, strlen-length, strncpy-append, char_at-append, drop-append,
  NoNul-append,
}

abbrev pub slash : ℕ
slash = b'/'

abbrev is_separator : ℕ → Bool
is_separator c = (c == slash) || (c == 0)

-- One round of the loop that reaches the character at `i`: the components after it.
capture : Text → (i start : ℕ) → List Text → List Text
capture path i start components =
    if is_separator (char_at path i)
      && ltb start i
      && ltb (i - start) max_component_length
      && ltb (length components) max_components
    then components ++ strncpy (drop start path) (i - start) ∷ []
    else components

-- The loop from `i` on, for the rounds that are left.
parse_from : Text → (rounds i start : ℕ) → List Text → List Text
parse_from path zero i start components = components
parse_from path (suc rounds) i start components =
    parse_from path rounds (i + 1) (if is_separator (char_at path i) then i + 1 else start)
      (capture path i start components)

-- `++path; --path_len` for a leading dot.
unfoldable pub skip_dot : Text → Text
skip_dot [] = []
skip_dot (c ∷ path) = if c == b'.' then path else c ∷ path

-- The components, in order; `num_components` is their number.
unfoldable pub parse_fat32_path : Text → List Text
unfolding parse_from capture skip_dot
parse_fat32_path path = parse_from (skip_dot path) (strlen (skip_dot path) + 1) 0 0 []

-- The words between the slashes, empty ones included; `word` is what has been read of the first.
unfoldable pub split : Text → Text → List Text
split word [] = word ∷ []
split word (c ∷ s) =
    let next = word ∷ split [] s in
    let more = split (word ++ c ∷ []) s in if c == slash then next else more

-- The words that can be a component: not empty, and short enough for the array.
abbrev fits : ℕ → Bool
fits len = ltb 0 len && ltb len max_component_length

unfoldable pub keep : List Text → List Text
keep [] = []
keep (w ∷ ws) = if fits (length w) then w ∷ keep ws else keep ws

-- Words added to the components while there is room.
add_word : List Text → Text → List Text
add_word components w =
    if fits (length w) && ltb (length components) max_components
    then components ++ w ∷ []
    else components

add_words : List Text → List Text → List Text
add_words components [] = components
add_words components (w ∷ ws) = add_words (add_word components w) ws

add_word-full : (cs : List Text) (w : Text) → 16 ≤ length cs → add_word cs w ≡ cs
unfolding add_word
add_word-full cs w h = ground arith

add_words-full : (cs ws : List Text) → 16 ≤ length cs → add_words cs ws ≡ cs
unfolding add_words
add_words-full cs [] h = refl
add_words-full cs (w ∷ ws) h = rw (add_word-full cs w h) (add_words-full cs ws h)

take-nil : (n : ℕ) → take {A = Text} n [] ≡ []
take-nil zero = refl
take-nil (suc n) = refl

add_word-unfit : (cs : List Text) (w : Text) → fits (length w) ≡ false → add_word cs w ≡ cs
unfolding add_word
add_word-unfit cs w h = rw h

add_word-fit :
    (cs : List Text) (w : Text)
    → fits (length w) ≡ true
    → length cs < 16
    → add_word cs w ≡ cs ++ w ∷ []
unfolding add_word
add_word-fit cs w h room = rw (h, lt→ltb (length cs) 16 room)

add_words_lem :
    (ws : List Text) (n : ℕ) (cs : List Text)
    → length cs + n ≡ 16
    → add_words cs ws ≡ cs ++ take n (keep ws)
unfolding add_words keep
add_words_lem [] n cs e = sym (ap (λ l. cs ++ l) (take-nil n) ∙ append-nil cs)
add_words_lem (w ∷ ws) zero cs e = add_words-full cs (w ∷ ws) (omega arith) ∙ sym (append-nil cs)
add_words_lem (w ∷ ws) (suc n) cs e = elim (Bool-cases (fits (length w))) [
  | inl fit ↦
      rw (fit, add_word-fit cs w fit (omega arith))
        (add_words_lem ws n (cs ++ w ∷ []) (omega (arith, length-append cs (w ∷ [])))
          ∙ append_assoc cs (w ∷ []) (take n (keep ws)))
  | inr unfit ↦ rw (unfit, add_word-unfit cs w unfit) (add_words_lem ws (suc n) cs e)
]

module _ (path done cur rest : Text) (i start : ℕ) (whole : path ≡ done ++ (cur ++ rest))
    (at : i ≡ length done + length cur) (from : start ≡ length done) (nul : NoNul cur) where
  here : char_at path i ≡ char_at rest 0
  here =
      ap₂ char_at (whole ∙ sym (append_assoc done cur rest)) (at ∙ sym (length-append done cur))
      ∙ char_at-append (done ++ cur) rest

  long : i - start ≡ length cur
  long = omega arith

  begun : ltb start i ≡ ltb 0 (length cur)
  begun = ground arith

  word : strncpy (drop start path) (i - start) ≡ cur
  word =
      ap₂ strncpy (ap₂ drop from whole ∙ drop-append done (cur ++ rest)) long
      ∙ strncpy-append cur rest nul

  capture_separator :
      (cs : List Text)
      → is_separator (char_at rest 0) ≡ true
      → capture path i start cs ≡ add_word cs cur
  unfolding capture add_word
  capture_separator cs sep = rw (here, sep, word, long, begun)

  capture_other :
      (cs : List Text) → is_separator (char_at rest 0) ≡ false → capture path i start cs ≡ cs
  unfolding capture
  capture_other cs other = rw (here, other)

regroup : (done cur s : Text) (c : ℕ) → done ++ (cur ++ c ∷ s) ≡ (done ++ (cur ++ c ∷ [])) ++ s
regroup done cur s c =
    ap (λ l. done ++ l) (sym (append_assoc cur (c ∷ []) s))
    ∙ sym (append_assoc done (cur ++ c ∷ []) s)

skip_dot-NoNul : (path : Text) → NoNul path → NoNul (skip_dot path)
unfolding skip_dot
skip_dot-NoNul [] h = tt
skip_dot-NoNul (c ∷ path) h = elim (Bool-cases (c == b'.')) [ inl e ↦ rw e h.1 | inr e ↦ rw e h ]

parse_lem :
    (rest path done cur : Text) (rounds i start : ℕ) (cs : List Text)
    → path ≡ done ++ (cur ++ rest)
    → i ≡ length done + length cur
    → start ≡ length done
    → rounds ≡ suc (length rest)
    → NoNul cur
    → NoNul rest
    → parse_from path rounds i start cs ≡ add_words cs (split cur rest)
unfolding parse_from add_words split
parse_lem rest path done cur zero i start cs whole at from count nul nul' = absurd (omega arith)
parse_lem [] path done cur (suc zero) i start cs whole at from count nul nul' =
    capture_separator path done cur [] i start whole at from nul cs refl
parse_lem [] path done cur (suc (suc k)) i start cs whole at from count nul nul' =
    absurd (omega arith)
parse_lem (c ∷ s) path done cur (suc k) i start cs whole at from count nul nul' =
    elim (Bool-cases (c == slash)) [
      | inl at_slash ↦
          let separates : is_separator c ≡ true = rw at_slash in
          let next : (if is_separator (char_at path i) then i + 1 else start) ≡ i + 1 =
            rw (here path done cur (c ∷ s) i start whole at from nul, separates) in
          rw at_slash (
            ap₂ (parse_from path k (i + 1)) next
              (capture_separator path done cur (c ∷ s) i start whole at from nul cs separates)
            ∙ parse_lem s path (done ++ (cur ++ c ∷ [])) [] k (i + 1) (i + 1) (add_word cs cur)
                (whole ∙ regroup done cur s c)
                (omega (arith, length-append done (cur ++ c ∷ []), length-append cur (c ∷ [])))
                (omega (arith, length-append done (cur ++ c ∷ []), length-append cur (c ∷ [])))
                (omega arith) tt nul'.1)
      | inr other ↦
          let inside : is_separator c ≡ false = rw (other, ne→not-== c 0 nul'.0) in
          let same : (if is_separator (char_at path i) then i + 1 else start) ≡ start =
            rw (here path done cur (c ∷ s) i start whole at from nul, inside) in
          rw other (
            ap₂ (parse_from path k (i + 1)) same
              (capture_other path done cur (c ∷ s) i start whole at from nul cs inside)
            ∙ parse_lem s path done (cur ++ c ∷ []) k (i + 1) start cs
                (whole ∙ ap (λ l. done ++ l) (sym (append_assoc cur (c ∷ []) s)))
                (omega (arith, length-append cur (c ∷ []))) from (omega arith)
                (NoNul-append cur (c ∷ []) nul (nul'.0, tt)) nul'.1)
    ]

-- For a path without NULs the components are the words between its slashes, behind a leading dot,
-- that are not empty and shorter than 64, the first 16 of them.
pub parse-split :
    (path : Text)
    → NoNul path
    → parse_fat32_path path ≡ take max_components (keep (split [] (skip_dot path)))
unfolding parse_fat32_path
parse-split path nul =
    parse_lem (skip_dot path) (skip_dot path) [] [] (strlen (skip_dot path) + 1) 0 0 [] refl refl
      refl (omega (arith, strlen-length (skip_dot path) (skip_dot-NoNul path nul))) tt
      (skip_dot-NoNul path nul)
    ∙ add_words_lem (split [] (skip_dot path)) 16 [] refl
