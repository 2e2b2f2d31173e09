-- ===== src/Push/Effect.antt =====
-- Calls that act on the metadata store and on CAS: each gives its result, and both after it. What a
-- call did before it failed is not undone.
use spool_rack.Prelude.{◌≡◌, ◌∙◌, ap, refl}
use spool_rack.Fault.{Error, Result, ok, err}

pub record World (σ δ : Type 0) : Type 0 where
  pub store : σ
  pub disk : δ

abbrev pub Effect : Type 0 → Type 0 → Type 0
Effect W A = W → Result A × W

module _ {W : Type 0} where
  abbrev pub after : {A B : Type 0} → Result A × W → (A → Effect W B) → Result B × W
  after (ok a, w) rest = rest a w
  after (err e, w) rest = (err e, w)

  infixl 5 ◌>>=◌ ◌>>◌
  unfoldable pub ◌>>=◌ : {A B : Type 0} → Effect W A → (A → Effect W B) → Effect W B
  (called >>= rest) w = after (called w) rest

  unfoldable pub ◌>>◌ : {B : Type 0} → Effect W (Unit {0}) → Effect W B → Effect W B
  (called >> rest) w = after (called w) λ _. rest

  -- a step that acts on nothing
  unfoldable pub pure : {A : Type 0} → Result A → Effect W A
  pure r w = (r, w)

  -- What a call leaves unchanged, whether it succeeds or not.
  pub record Keeps {A X : Type 0} (read : W → X) (call : Effect W A) : Type 0 where
    pub kept : (w : W) → read (call w).1 ≡ read w

  pub bind-Keeps :
      {A B X : Type 0} (read : W → X) {called : Effect W A} {rest : A → Effect W B}
      → Keeps read called
      → ((a : A) → Keeps read (rest a))
      → Keeps read (called >>= rest)
  unfolding ◌>>=◌
  bind-Keeps {A} {B} read {called} {rest} h k = record { kept = λ w. from w (called w) (h.kept w) }
    where
      from : (w : W) (m : Result A × W) → read m.1 ≡ read w → read (after m rest).1 ≡ read w
      from w (ok a, v) e = (k a).kept v ∙ e
      from w (err e, v) p = p

  pub then-Keeps :
      {B X : Type 0} (read : W → X) {called : Effect W (Unit {0})} {rest : Effect W B}
      → Keeps read called
      → Keeps read rest
      → Keeps read (called >> rest)
  unfolding ◌>>=◌ ◌>>◌
  then-Keeps read h k = record { kept = (bind-Keeps read h λ _. k).kept }

  pub pure-Keeps : {A X : Type 0} (read : W → X) (r : Result A) → Keeps read (pure r)
  unfolding pure
  pure-Keeps read r = record { kept = λ w. refl }

  no_value :
      {B : Type 0} (reason : Error) (b : B) (u v : W)
      → ◌≡◌ {A = Result B × W} (err reason, u) (ok b, v)
      → ⊥
  no_value {B} reason b u v h = let e : err reason ≡ ok b = ap (λ m. m.0) h in cc e

  -- A run that returned without an error got through the call, and went on from there.
  pub bind-eq-ok :
      {A B : Type 0} (called : Effect W A) (rest : A → Effect W B) (w v : W) (b : B)
      → ◌≡◌ {A = Result B × W} ((called >>= rest) w) (ok b, v)
      → (a : A) × (u : W) × (◌≡◌ {A = Result A × W} (called w) (ok a, u))
        × (◌≡◌ {A = Result B × W} (rest a u) (ok b, v))
  unfolding ◌>>=◌
  bind-eq-ok {A} {B} called rest w v b h = from (called w) refl h
    where
      from :
          (m : Result A × W)
          → called w ≡ m
          → ◌≡◌ {A = Result B × W} (after m rest) (ok b, v)
          → (a : A) × (u : W) × (◌≡◌ {A = Result A × W} (called w) (ok a, u))
            × (◌≡◌ {A = Result B × W} (rest a u) (ok b, v))
      from (ok a, u) e k = (a, u, e, k)
      from (err reason, u) e k = absurd (no_value reason b u v k)

  pub then-eq-ok :
      {B : Type 0} (called : Effect W (Unit {0})) (rest : Effect W B) (w v : W) (b : B)
      → ◌≡◌ {A = Result B × W} ((called >> rest) w) (ok b, v)
      → (u : W) × (◌≡◌ {A = Result (Unit {0}) × W} (called w) (ok tt, u))
        × (◌≡◌ {A = Result B × W} (rest u) (ok b, v))
  unfolding ◌>>=◌ ◌>>◌
  then-eq-ok called rest w v b h =
      let (_, u, done, left) = bind-eq-ok called (λ _. rest) w v b h in (u, done, left)

module _ {σ δ : Type 0} where
  -- a call that reads the store, or changes it
  unfoldable pub reads : {A : Type 0} → (σ → Result A) → Effect (World σ δ) A
  reads f w = (f w.store, w)

  unfoldable pub in_store : {A : Type 0} → (σ → Result A × σ) → Effect (World σ δ) A
  in_store f w = let (r, s) = f w.store in (r, record w { store = s })

  unfoldable pub in_cas : {A : Type 0} → (δ → Result A × δ) → Effect (World σ δ) A
  in_cas f w = let (r, d) = f w.disk in (r, record w { disk = d })

  unfoldable pub reads_cas : {A : Type 0} → (δ → Result A) → Effect (World σ δ) A
  reads_cas f w = (f w.disk, w)

  pub reads-Keeps : {A X : Type 0} (read : World σ δ → X) (f : σ → Result A) → Keeps read (reads f)
  unfolding reads
  reads-Keeps read f = record { kept = λ w. refl }

  pub reads_cas-Keeps :
      {A X : Type 0} (read : World σ δ → X) (f : δ → Result A) → Keeps read (reads_cas f)
  unfolding reads_cas
  reads_cas-Keeps read f = record { kept = λ w. refl }

  -- A call of CAS leaves the store alone.
  pub in_cas-Keeps :
      {A X : Type 0} (of_store : σ → X) (f : δ → Result A × δ)
      → Keeps (λ w. of_store w.store) (in_cas f)
  unfolding in_cas
  in_cas-Keeps of_store f = record { kept = λ w. refl }

  pub in_store-Keeps :
      {A X : Type 0} (of_store : σ → X) (f : σ → Result A × σ)
      → ((s : σ) → of_store (f s).1 ≡ of_store s)
      → Keeps (λ w. of_store w.store) (in_store f)
  unfolding in_store
  in_store-Keeps of_store f h = record { kept = λ w. h w.store }
