-- ===== src/Cas/Scope.antt =====
-- internal/server/storage/cas/cas.go: a scope fences a request to one repository of one tenant.
use spool_rack.Prelude.{
  ℕ, Bytes, codes, is_empty, Bool, true, false, ◌&&◌, ◌||◌, not, [], ◌∷◌, length, ◌==◌, bytes_eq,
  nat_beq, leb, if◌then◌else◌,
}
use spool_rack.Fault.{Result, Done, ok, err, invalid_scope, ◌>>◌}

pub record Scope : Type 0 where
  pub tenant_id : Bytes
  pub repo_id : Bytes

unfoldable pub is_alnum : ℕ → Bool
is_alnum c = (leb b'A' c && leb c b'Z') || (leb b'a' c && leb c b'z') || (leb b'0' c && leb c b'9')

unfoldable pub is_segment_char : ℕ → Bool
unfolding is_alnum
is_segment_char c = is_alnum c || nat_beq c b'.' || nat_beq c b'_' || nat_beq c b'-'

unfoldable pub all_segment_chars : Bytes → Bool
unfolding is_segment_char
all_segment_chars [] = true
all_segment_chars (c ∷ s) = is_segment_char c && all_segment_chars s

-- `scopeSegmentPattern`
unfoldable pub matches_pattern : Bytes → Bool
unfolding all_segment_chars
matches_pattern [] = false
matches_pattern (c ∷ s) = is_alnum c && all_segment_chars s && leb (length s) 127

unfoldable pub validate_scope_segment : Bytes → Done
validate_scope_segment seg =
    if is_empty seg
    then err invalid_scope
    else if seg == codes "." || seg == codes ".."
    then err invalid_scope
    else if not (matches_pattern seg)
    then err invalid_scope
    else ok tt

unfoldable pub new_scope : Bytes → Bytes → Result Scope
new_scope tenant_id repo_id = do
  validate_scope_segment tenant_id
  validate_scope_segment repo_id
  ok (record { tenant_id = tenant_id; repo_id = repo_id })
