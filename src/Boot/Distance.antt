-- ===== src/Boot/Distance.antt =====
-- Properties of the distance that `levenshtein` of boot/bootloader.c computes.
use kernel_team_project.Base.{
  ℕ, zero, suc, ◌+◌, ◌≤◌, ◌<◌, ◌≡◌, ◌∙◌, ap, sym, inl, inr, arith, ◌==◌, Bool-cases, ==→eq,
  not-==→ne, max,
}
use kernel_team_project.Boot.{min_of, levenshtein}

module _ (str1 str2 : ℕ → ℕ) where
  -- The distance is no less than the difference of the lengths, and no more than the longer of them.
  pub levenshtein_bounds :
      (a b : ℕ) → let d = levenshtein str1 str2 a b in (a ≤ b + d) × (b ≤ a + d) × (d ≤ max a b)
  unfolding levenshtein min_of
  levenshtein_bounds zero b = omega arith
  levenshtein_bounds (suc a) zero = omega arith
  levenshtein_bounds (suc a) (suc b) =
      ground
        (arith, levenshtein_bounds (suc a) b, levenshtein_bounds a (suc b), levenshtein_bounds a b)

  equal_snoc :
      (a b : ℕ)
      → str1 a ≡ str2 b
      → a ≡ b
      → ((i : ℕ) → i < a → str1 i ≡ str2 i)
      → (i : ℕ) → i < suc a
      → str1 i ≡ str2 i
  equal_snoc a b last len before i h = elim (Bool-cases (i == a)) [
    | inl here ↦
        let e : i ≡ a = ==→eq i a here in ap str1 e ∙ last ∙ ap str2 (sym len) ∙ ap str2 (sym e)
    | inr earlier ↦ before i (let ne = not-==→ne i a earlier in omega arith)
  ]

  -- Only equal texts have the distance 0.
  pub levenshtein_zero :
      (a b : ℕ) → levenshtein str1 str2 a b ≡ 0 → (a ≡ b) × ((i : ℕ) → i < a → str1 i ≡ str2 i)
  unfolding levenshtein
  levenshtein_zero zero b e = (omega arith, λ i h. absurd (omega arith))
  levenshtein_zero (suc a) zero e = absurd (omega arith)
  levenshtein_zero (suc a) (suc b) e = elim (Bool-cases (str1 a == str2 b)) [
    | inr differ ↦ absurd (let some_edit = rw differ at e in omega arith)
    | inl same ↦
        let shorter : levenshtein str1 str2 a b ≡ 0 = rw same at e in
        let rest = levenshtein_zero a b shorter in
        (ap suc rest.0, equal_snoc a b (==→eq (str1 a) (str2 b) same) rest.0 rest.1)
  ]
