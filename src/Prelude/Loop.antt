-- ===== src/Prelude/Loop.antt =====
-- A `for` loop as the iteration of its body: the body ends the loop with a result, or gives the next
-- state. The fuel bounds the number of iterations.
use Prim.Native.Nat.{ℕ, zero, suc, ◌<◌}
use mathlib.Core.Path.{◌≡◌, refl, ◌∙◌}
use mathlib.Core.Logic.{◌⊎◌, inl, inr}
use mathlib.Core.Option.{Option, none, some}
use native.Mathlib.Omega.{arith}

pub data Next {ℓ κ} (S : Type ℓ) (R : Type κ) : Type (ℓ ⊔ κ) where
  finished : R → Next S R
  again : S → Next S R

Next-cases {ℓ κ} :
    {S : Type ℓ} {R : Type κ} (n : Next S R)
    → ((r : R) × (n ≡ finished r)) ⊎ ((s : S) × (n ≡ again s))
Next-cases (finished r) = inl (r, refl)
Next-cases (again s) = inr (s, refl)

module _ {ℓ κ} {S : Type ℓ} {R : Type κ} (body : S → Next S R) where
  -- none where the fuel does not suffice
  unfoldable pub iterate : ℕ → S → Option R
  iterate zero s = none
  iterate (suc fuel) s = elim (body s) [ finished r ↦ some r | again t ↦ iterate fuel t ]

  ended : (done r : R) → some done ≡ some r → ◌≡◌ {A = Next S R} (finished done) (finished r)
  ended done r h = cc

  -- What every iteration keeps holds in the last one.
  pub iterate_rule {ρ} :
      (P : S → Type ρ)
      → ((s t : S) → P s → body s ≡ again t → P t)
      → (fuel : ℕ) (s : S) (r : R) → P s
      → iterate fuel s ≡ some r
      → (last : S) × P last × (body last ≡ finished r)
  unfolding iterate
  iterate_rule P keep zero s r p h = cc
  iterate_rule P keep (suc fuel) s r p h = elim (Next-cases (body s)) [
    | inl (done, e) ↦ (s, p, e ∙ ended done r (rw (e, iterate) at h))
    | inr (t, e) ↦ iterate_rule P keep fuel t r (keep s t p e) (rw (e, iterate) at h)
  ]

  -- A loop whose measure falls in every iteration ends.
  pub iterate_ends {ρ} :
      (P : S → Type ρ) (measure : S → ℕ)
      → ((s t : S) → P s → body s ≡ again t → P t × (measure t < measure s))
      → (fuel : ℕ) (s : S) → P s
      → measure s < fuel
      → (r : R) × (iterate fuel s ≡ some r)
  unfolding iterate
  iterate_ends P measure falls zero s p h = absurd (omega arith)
  iterate_ends P measure falls (suc fuel) s p h = elim (Next-cases (body s)) [
    | inl (done, e) ↦ (done, rw (e, iterate) refl)
    | inr (t, e) ↦
        let (q, less) = falls s t p e in
        let (r, ends) = iterate_ends P measure falls fuel t q (omega arith) in
        (r, rw (e, iterate) ends)
  ]
