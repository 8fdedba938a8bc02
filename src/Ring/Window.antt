-- ===== src/Ring/Window.antt =====
-- The elements of a ring of 512 slots, as a list, and how a push and a pop change it.
use kernel_team_project.Base.{
  ℕ, suc, ◌+◌, ◌%◌, ◌<◌, ◌≢◌, ◌≡◌, sym, ap, ap₂, ◌∙◌, List, [], ◌∷◌, ◌++◌, arith, update, length,
  tabulate, tabulate-ext, tabulate-snoc, length-tabulate, ne→not-==, eq→==,
}

module _ {ℓ} {A : Type ℓ} where
  -- The `n` elements from slot `h` on, going round after the last slot.
  abbrev pub window : (ℕ → A) → ℕ → ℕ → List A
  window buf h n = tabulate n (λ k. buf ((h + k) % 512))

  pub length-window : (buf : ℕ → A) (h n : ℕ) → length (window buf h n) ≡ n
  length-window buf h n = length-tabulate n (λ k. buf ((h + k) % 512))

  update_other : (buf : ℕ → A) (i j : ℕ) (x : A) → j ≢ i → update buf i x j ≡ buf j
  update_other buf i j x ne = rw (ne→not-== j i ne)

  update_same : (buf : ℕ → A) (i j : ℕ) (x : A) → j ≡ i → update buf i x j ≡ x
  update_same buf i j x e = rw (eq→== j i e)

  -- Writing to the slot behind a window that is not full extends the window.
  pub window-push :
      (buf : ℕ → A) (h n t : ℕ) (x : A)
      → t ≡ (h + n) % 512
      → n < 512
      → window (update buf t x) h (suc n) ≡ window buf h n ++ x ∷ []
  window-push buf h n t x e room =
      tabulate-snoc n (λ k. update buf t x ((h + k) % 512))
      ∙ ap₂ (λ l y. l ++ y ∷ [])
          (tabulate-ext n (λ k. update buf t x ((h + k) % 512)) (λ k. buf ((h + k) % 512))
            (λ k hk. update_other buf t ((h + k) % 512) x (omega arith)))
          (update_same buf t ((h + n) % 512) x (sym e))

  -- The first element of a window that is not empty, and the window behind it.
  pub window-pop :
      (buf : ℕ → A) (h n : ℕ)
      → h < 512
      → window buf h (suc n) ≡ buf h ∷ window buf ((h + 1) % 512) n
  window-pop buf h n small = ap₂ ◌∷◌ (ap buf (omega arith)) (
      tabulate-ext n (λ k. buf ((h + suc k) % 512)) (λ k. buf (((h + 1) % 512 + k) % 512))
        (λ k hk. ap buf (omega arith)))
