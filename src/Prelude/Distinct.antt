-- ===== src/Prelude/Distinct.antt =====
-- Lists without repetition, as a loop that remembers what it has seen tests them.
use mathlib.Core.Path.{◌≡◌, refl, sym, ◌∙◌}
use mathlib.Core.Logic.{◌↔◌}
use mathlib.Core.Bool.{false}
use mathlib.Core.List.{List, [], ◌∷◌}
use native.Mathlib.Omega.{arith}
use spool_rack.Prelude.Lists.{All}
use spool_rack.Prelude.Keys.{Eq, contains, IsNodup}

module _ {ℓ} {A : Type ℓ} ⦃e : Eq A⦄ where
  -- Each element is new when the loop meets it.
  abbrev pub Fresh : List A → List A → Type 0
  Fresh seen [] = Unit
  Fresh seen (x ∷ xs) = (contains seen x ≡ false) × Fresh (x ∷ seen) xs

  abbrev pub NoneIn : List A → List A → Type 0
  NoneIn seen = All (λ x. contains seen x ≡ false)

  NoneIn-split :
      (x : A) (seen xs : List A) → NoneIn (x ∷ seen) xs → (contains xs x ≡ false) × NoneIn seen xs
  unfolding contains
  NoneIn-split x seen [] h = (refl, tt)
  NoneIn-split x seen (y ∷ ys) h =
      let (n, a) = NoneIn-split x seen ys h.1 in
      (ground (arith, e.same_iff x y, e.same_iff y x, h.0), (ground (arith, h.0), a))

  NoneIn-join :
      (x : A) (seen xs : List A) → contains xs x ≡ false → NoneIn seen xs → NoneIn (x ∷ seen) xs
  unfolding contains
  NoneIn-join x seen [] n a = tt
  NoneIn-join x seen (y ∷ ys) n a = (
    ground (arith, e.same_iff x y, e.same_iff y x, a.0),
    NoneIn-join x seen ys (ground arith) a.1,
  )

  Fresh-sound : (seen xs : List A) → Fresh seen xs → IsNodup xs × NoneIn seen xs
  Fresh-sound seen [] h = (tt, tt)
  Fresh-sound seen (x ∷ xs) h =
      let (d, a) = Fresh-sound (x ∷ seen) xs h.1 in
      let (n, b) = NoneIn-split x seen xs a in ((n, d), (h.0, b))

  Fresh-complete : (seen xs : List A) → IsNodup xs → NoneIn seen xs → Fresh seen xs
  Fresh-complete seen [] d a = tt
  Fresh-complete seen (x ∷ xs) d a =
      (a.0, Fresh-complete (x ∷ seen) xs d.1 (NoneIn-join x seen xs d.0 a.1))

  pub Fresh-iff : (seen xs : List A) → Fresh seen xs ↔ (IsNodup xs × NoneIn seen xs)
  Fresh-iff seen xs = (Fresh-sound seen xs, λ h. Fresh-complete seen xs h.0 h.1)

  NoneIn-nil : (xs : List A) → NoneIn [] xs
  unfolding contains
  NoneIn-nil [] = tt
  NoneIn-nil (x ∷ xs) = (refl, NoneIn-nil xs)

  pub Fresh-nil_iff : (xs : List A) → Fresh [] xs ↔ IsNodup xs
  Fresh-nil_iff xs = (λ h. (Fresh-sound [] xs h).0, λ d. Fresh-complete [] xs d (NoneIn-nil xs))

  pub contains-swap :
      (x y : A) (xs : List A) (z : A) → contains (x ∷ y ∷ xs) z ≡ contains (y ∷ x ∷ xs) z
  unfolding contains
  contains-swap x y xs z = ground arith

  Fresh-same : (a b xs : List A) → ((z : A) → contains a z ≡ contains b z) → Fresh a xs → Fresh b xs
  unfolding contains
  Fresh-same a b [] h f = tt
  Fresh-same a b (x ∷ xs) h f =
      (sym (h x) ∙ f.0, Fresh-same (x ∷ a) (x ∷ b) xs (λ z. ground (arith, h z)) f.1)

  pub Fresh-swap :
      (seen : List A) (x y : A) (xs : List A) → Fresh seen (x ∷ y ∷ xs) → Fresh seen (y ∷ x ∷ xs)
  Fresh-swap seen x y xs f = (
    unfold contains in ground (arith, f.1.0),
    (
      unfold contains in ground (arith, f.0, f.1.0, e.same_iff x y, e.same_iff y x),
      Fresh-same (y ∷ x ∷ seen) (x ∷ y ∷ seen) xs (λ z. contains-swap y x seen z) f.1.1,
    ),
  )

  -- Having seen less does not hurt.
  pub Fresh-weaken : (x : A) (seen xs : List A) → Fresh (x ∷ seen) xs → Fresh seen xs
  Fresh-weaken x seen xs f =
      let (d, a) = Fresh-sound (x ∷ seen) xs f in
      Fresh-complete seen xs d (NoneIn-split x seen xs a).1
