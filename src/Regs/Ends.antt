-- ===== src/Regs/Ends.antt =====
-- Calls that return on every device, from every state of it.
use kernel_team_project.Base.{ℕ, ◌<◌, ◌≡◌, ◌∙◌, some, Bool, true, false, if◌then◌else◌}
use kernel_team_project.Regs.{Bus, Machine, Io, ◌>>=◌, ◌>>◌, run-bind, wait_while}
use kernel_team_project.Regs.Poll.{EndsAt, wait_while_found}

module _ {D : Type 0} where
  abbrev pub Ends : {A : Type 0} → Io D A → Type 0
  Ends {A} c = (m : Machine D) → (r : A × Machine D) × (c m ≡ some r)

  pub bind-Ends :
      {A B : Type 0} (c : Io D A) (f : A → Io D B)
      → Ends c
      → ((a : A) → Ends (f a))
      → Ends (c >>= f)
  bind-Ends c f hc hf m =
      let ((a, m'), e) = hc m in let (r, e') = hf a m' in (r, run-bind c f e ∙ e')

  -- One call after another, and one of two calls.
  pub then-Ends : {A : Type 0} {c : Io D (Unit {0})} {k : Io D A} → Ends c → Ends k → Ends (c >> k)
  then-Ends {c} {k} hc hk = bind-Ends c (λ _. k) hc (λ _. hk)

  pub if-Ends : {A : Type 0} {c k : Io D A} (b : Bool) → Ends c → Ends k → Ends (if b then c else k)
  if-Ends true hc hk = hc
  if-Ends false hc hk = hk

  -- Calls that return with a given result.
  abbrev pub Returns : {A : Type 0} → Io D A → A → Type 0
  Returns c a = (m : Machine D) → (m' : Machine D) × (c m ≡ some (a, m'))

  pub bind-Returns :
      {A B : Type 0} (c : Io D A) (f : A → Io D B) {a : A} {b : B}
      → Returns c a
      → Returns (f a) b
      → Returns (c >>= f) b
  bind-Returns c f hc hf m = let (m1, e) = hc m in let (m2, e') = hf m1 in (m2, run-bind c f e ∙ e')

  -- What follows does not depend on the result of the first call.
  pub ends-Returns :
      {A B : Type 0} (c : Io D A) (f : A → Io D B) {b : B}
      → Ends c
      → ((a : A) → Returns (f a) b)
      → Returns (c >>= f) b
  ends-Returns c f hc hf m =
      let ((a, m1), e) = hc m in let (m2, e') = hf a m1 in (m2, run-bind c f e ∙ e')

  pub unit-Returns : (c : Io D (Unit {0})) → Ends c → Returns c tt
  unit-Returns c h m = let (r, e) = h m in (r.1, e)

module _ {D : Type 0} (bus : Bus D) (fuel : ℕ) where
  -- A register that, whatever the state, ends a wait within the fuel.
  abbrev pub EndsInTime : (base offset : ℕ) → (test : ℕ → Bool) → Type 0
  EndsInTime base offset test = (d : D) → (k : ℕ) × (k < fuel) × EndsAt bus base offset test k d

  pub wait_while-Ends :
      (base offset : ℕ) (test : ℕ → Bool)
      → EndsInTime base offset test
      → Ends (wait_while bus fuel base offset test)
  wait_while-Ends base offset test h m =
      let (k, lt, at) = h m.dev in (_, wait_while_found bus base offset test k fuel m lt at)
