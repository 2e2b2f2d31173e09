-- ===== src/Auth/Header.antt =====
-- What credential a request's headers carry.
use mathlib.Core.List.{reverse, reverse-append}
use spool_rack.Prelude.{
  ◌&&◌, ℕ, Bytes, codes, is_empty, true, false, Option, none, some, List, [], ◌∷◌, ◌++◌, ◌≡◌, ◌≢◌,
  refl, All, arith, bytes_eq, nat_beq, map, bytes_beq_iff, leb,
}
use spool_rack.Prelude.Space.{
  is_space, trim_space, cut_space, IsTrimmed, StartsClean, trim_space-IsTrimmed,
  trim_space-eq_of_trimmed, cut_space-append,
}
use spool_rack.Fault.{ok}
use spool_rack.Auth.Defs.{
  CredentialKind, bearer, api_key, Credential, Headers, extract_credential, from_headers, bearer_of,
  parse_authorization, is_bearer, to_lower,
}

-- The token is not empty, and no space stands at its ends.
abbrev pub IsToken : Bytes → Type 0
IsToken t = IsTrimmed t × (is_empty t ≡ false)

bearer_of-IsToken :
    (o : Option (Bytes × Bytes)) {c : Credential}
    → bearer_of o ≡ ok c
    → IsToken c.token × (c.kind ≡ bearer)
bearer_of-IsToken none h = cc
bearer_of-IsToken (some (scheme, t)) {c} h =
    let e : c ≡ record { kind = bearer; token = trim_space t } = ground arith in
    rw e ((trim_space-IsTrimmed t, ground arith), refl)

parse_authorization-IsToken :
    (v : Bytes) {c : Credential}
    → parse_authorization v ≡ ok c
    → IsToken c.token × (c.kind ≡ bearer)
parse_authorization-IsToken [] h = cc
parse_authorization-IsToken (x ∷ v) h = bearer_of-IsToken (cut_space (x ∷ v)) h

-- Which header a credential of each kind comes from.
abbrev pub Source : CredentialKind → List Bytes → Type 0
Source bearer authorization = authorization ≢ []
Source api_key authorization = authorization ≡ []

-- An extracted token is trimmed and not empty, and an API key is used only where the request
-- has no Authorization header.
pub extract_credential_sound :
    (r : Headers) {c : Credential}
    → extract_credential r ≡ ok c
    → IsToken c.token × Source c.kind r.authorization
unfolding extract_credential
extract_credential_sound r {c} = go r.authorization r.x_api_key
  where
    go :
        (values keys : List Bytes)
        → from_headers values keys ≡ ok c
        → IsToken c.token × Source c.kind values
    go [] [] h = cc
    go [] (k ∷ ks) h =
        let e : c ≡ record { kind = api_key; token = trim_space k } = ground arith in
        rw e ((trim_space-IsTrimmed k, ground arith), refl)
    go (v ∷ vs) keys h =
        let (token, e) = parse_authorization-IsToken (trim_space v) h in (token, rw e (λ p. cc))

abbrev IsLower : ℕ → Type 0
IsLower d = (leb b'a' d && leb d b'z') ≡ true

lower_no_space :
    (c d : ℕ) → IsLower d → to_lower c ≡ d → (is_space c ≡ false) × (nat_beq c 32 ≡ false)
unfolding is_space to_lower
lower_no_space c d h e = ground arith

scheme_no_space :
    (s w : Bytes) → All IsLower w → map to_lower s ≡ w → All (λ c. nat_beq c 32 ≡ false) s
scheme_no_space [] w h e = tt
scheme_no_space (c ∷ s) [] h e = cc
scheme_no_space (c ∷ s) (d ∷ w) h e =
    ((lower_no_space c d h.0 (ground arith)).1, scheme_no_space s w h.1 (ground arith))

StartsClean-lower :
    (s w b : Bytes) → All IsLower w → map to_lower s ≡ w → is_empty w ≡ false → StartsClean (s ++ b)
StartsClean-lower [] w b h e n = ground arith
StartsClean-lower (c ∷ s) [] b h e n = cc
StartsClean-lower (c ∷ s) (d ∷ w) b h e n = (lower_no_space c d h.0 (ground arith)).0

StartsClean-append : (a b : Bytes) → is_empty a ≡ false → StartsClean a → StartsClean (a ++ b)
StartsClean-append [] b n h = cc
StartsClean-append (c ∷ a) b n h = h

is_empty-append : (a : Bytes) (c : ℕ) → is_empty (a ++ c ∷ []) ≡ false
is_empty-append [] c = refl
is_empty-append (d ∷ a) c = refl

is_empty-reverse : (t : Bytes) → is_empty t ≡ false → is_empty (reverse t) ≡ false
is_empty-reverse [] h = cc
is_empty-reverse (c ∷ t) h = rw (reverse-append (c ∷ []) t) (is_empty-append (reverse t) c)

-- `scheme token`, where the scheme spells a word, is trimmed.
header-IsTrimmed :
    (s w t : Bytes)
    → All IsLower w
    → map to_lower s ≡ w
    → is_empty w ≡ false
    → IsToken t
    → IsTrimmed (s ++ 32 ∷ t)
header-IsTrimmed s w t h e n token = (
  StartsClean-lower s w (32 ∷ t) h e n,
  rw (reverse-append s (32 ∷ t)) (
      StartsClean-append (reverse (32 ∷ t)) (reverse s) (is_empty-reverse (32 ∷ t) refl) (
        rw (reverse-append (32 ∷ []) t)
          (StartsClean-append (reverse t) (32 ∷ []) (is_empty-reverse t token.1) token.0.1))),
)

bearer_word : All IsLower (codes "bearer")
bearer_word = (refl, (refl, (refl, (refl, (refl, (refl, tt))))))

is_bearer-eq : (s : Bytes) → is_bearer s ≡ true → map to_lower s ≡ codes "bearer"
unfolding is_bearer
is_bearer-eq s h = (bytes_beq_iff (map to_lower s) (codes "bearer")).0 h

-- A first Authorization value `scheme token`, where `scheme` is "bearer" in any case and the token
-- is trimmed and not empty, gives that bearer token, whatever the other headers are.
pub extract-bearer :
    (scheme t : Bytes) (rest keys : List Bytes)
    → is_bearer scheme ≡ true
    → IsToken t
    → extract_credential (record { authorization = (scheme ++ 32 ∷ t) ∷ rest; x_api_key = keys })
      ≡ ok (record { kind = bearer; token = t })
unfolding extract_credential
extract-bearer s t rest keys h token =
    let w = is_bearer-eq s h in
    let e =
      trim_space-eq_of_trimmed (s ++ 32 ∷ t)
        (header-IsTrimmed s (codes "bearer") t bearer_word w refl token) in
    rw e (
      rw (not_empty s t) (
        rw (cut_space-append s t (scheme_no_space s _ bearer_word w))
          (rw (h, trim_space-eq_of_trimmed t token.0, token.1))))
  where
    not_empty : (a b : Bytes) → is_empty (a ++ 32 ∷ b) ≡ false
    not_empty [] b = refl
    not_empty (c ∷ a) b = refl
