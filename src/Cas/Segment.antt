-- ===== src/Cas/Segment.antt =====
-- Which identifiers a scope takes: cas.go's allowlist against its documentation.
use spool_rack.Prelude.{
  ℕ, ◌≤◌, Bytes, codes, true, [], ◌∷◌, ◌≡◌, ◌≢◌, ◌↔◌, ◌⊎◌, refl, All, length, arith, bytes_eq,
  bytes_beq_iff,
}
use spool_rack.Fault.{ok, then-eq-ok}
use spool_rack.Cas.Scope.{
  Scope, is_alnum, is_segment_char, all_segment_chars, matches_pattern, validate_scope_segment,
  new_scope,
}

-- What the documentation promises of an identifier: at most 128 of letters, digits, '.', '_' and
-- '-', the first of them a letter or a digit.
abbrev IsAlnum : ℕ → Type 0
IsAlnum c = ((b'A' ≤ c) × (c ≤ b'Z')) ⊎ (((b'a' ≤ c) × (c ≤ b'z')) ⊎ ((b'0' ≤ c) × (c ≤ b'9')))

abbrev IsSegmentChar : ℕ → Type 0
IsSegmentChar c = IsAlnum c ⊎ ((c ≡ b'.') ⊎ ((c ≡ b'_') ⊎ (c ≡ b'-')))

abbrev BeginsAlnum : Bytes → Type 0
BeginsAlnum [] = ⊥
BeginsAlnum (c ∷ s) = IsAlnum c

pub record IsSegment (s : Bytes) : Type 0 where
  pub begins : BeginsAlnum s
  pub chars : All IsSegmentChar s
  pub short : length s ≤ 128

is_alnum_iff : (c : ℕ) → (is_alnum c ≡ true) ↔ IsAlnum c
unfolding is_alnum
is_alnum_iff c = ground arith

is_segment_char_iff : (c : ℕ) → (is_segment_char c ≡ true) ↔ IsSegmentChar c
unfolding is_segment_char
is_segment_char_iff c = ground arith

all_segment_chars_iff : (s : Bytes) → (all_segment_chars s ≡ true) ↔ All IsSegmentChar s
unfolding all_segment_chars
all_segment_chars_iff [] = (λ _. tt, λ _. refl)
all_segment_chars_iff (c ∷ s) = ground (arith, is_segment_char_iff c, all_segment_chars_iff s)

matches_pattern_iff : (s : Bytes) → (matches_pattern s ≡ true) ↔ IsSegment s
matches_pattern_iff [] = (λ h. absurd (unfold matches_pattern in cc h), λ h. absurd h.begins)
matches_pattern_iff (c ∷ s) = (
  λ h. record {
    begins = unfold matches_pattern in ground (arith, is_alnum_iff c);
    chars = (
      unfold matches_pattern in ground (arith, is_alnum_iff c),
      unfold matches_pattern in ground (arith, all_segment_chars_iff s),
    );
    short = unfold matches_pattern in ground arith;
  },
  λ h.
      unfold matches_pattern in
      ground (arith, is_alnum_iff c, all_segment_chars_iff s, h.begins, h.chars, h.short),
)

accepted_matches : (s : Bytes) → validate_scope_segment s ≡ ok tt → matches_pattern s ≡ true
unfolding validate_scope_segment
accepted_matches s h = ground arith

-- A segment is not refused by the tests that stand before the pattern.
segment_accepted :
    (s : Bytes) → IsSegment s → matches_pattern s ≡ true → validate_scope_segment s ≡ ok tt
unfolding validate_scope_segment
segment_accepted [] h m = absurd h.begins
segment_accepted (c ∷ s) h m =
    ground (arith, h.begins, bytes_beq_iff (c ∷ s) (codes "."), bytes_beq_iff (c ∷ s) (codes ".."))

validate_scope_segment_iff : (s : Bytes) → (validate_scope_segment s ≡ ok tt) ↔ IsSegment s
validate_scope_segment_iff s = (
  λ h. (matches_pattern_iff s).0 (accepted_matches s h),
  λ h. segment_accepted s h ((matches_pattern_iff s).1 h),
)

-- A scope is made exactly from two documented identifiers, and keeps them.
pub new_scope_iff :
    (tenant_id repo_id : Bytes) (scope : Scope)
    → (new_scope tenant_id repo_id ≡ ok scope) ↔ (
        IsSegment tenant_id
        × IsSegment repo_id
        × (scope ≡ record { tenant_id = tenant_id; repo_id = repo_id }))
unfolding new_scope
new_scope_iff t r scope = (
  λ h.
      let (p, k) = then-eq-ok (validate_scope_segment t) _ h in
      let (q, e) = then-eq-ok (validate_scope_segment r) _ k in
      ((validate_scope_segment_iff t).0 p, (validate_scope_segment_iff r).0 q, cc e),
  λ h. rw ((validate_scope_segment_iff t).1 h.0, (validate_scope_segment_iff r).1 h.1, h.2),
)

no_separator : (c : ℕ) → IsSegmentChar c → (c ≢ b'/') × (c ≢ 92) × (c ≢ 0)
no_separator c h = ground arith

-- No byte of the path is a slash, a backslash or NUL.
abbrev pub NoSeparator : Bytes → Type 0
NoSeparator = All (λ c. (c ≢ b'/') × (c ≢ 92) × (c ≢ 0))

chars-NoSeparator : (s : Bytes) → All IsSegmentChar s → NoSeparator s
chars-NoSeparator [] h = tt
chars-NoSeparator (c ∷ s) h = (no_separator c h.0, chars-NoSeparator s h.1)

IsSegment-plain :
    (s : Bytes) → IsSegment s → NoSeparator s × (s ≢ []) × (s ≢ codes ".") × (s ≢ codes "..")
IsSegment-plain [] h = absurd h.begins
IsSegment-plain (c ∷ s) h =
    let b : IsAlnum c = h.begins in
    (chars-NoSeparator (c ∷ s) h.chars, (λ e. cc e), (λ e. ground arith), (λ e. ground arith))

-- Neither identifier of a scope can name another directory: they have no separator and are neither
-- empty nor a dot segment.
pub new_scope_plain :
    (tenant_id repo_id : Bytes) {scope : Scope}
    → new_scope tenant_id repo_id ≡ ok scope
    → (NoSeparator scope.tenant_id
        × (scope.tenant_id ≢ [])
        × (scope.tenant_id ≢ codes ".")
        × (scope.tenant_id ≢ codes ".."))
      × (NoSeparator scope.repo_id
          × (scope.repo_id ≢ [])
          × (scope.repo_id ≢ codes ".")
          × (scope.repo_id ≢ codes ".."))
new_scope_plain t r {scope} h =
    let (p, q, e) = (new_scope_iff t r scope).0 h in rw e (IsSegment-plain t p, IsSegment-plain r q)
