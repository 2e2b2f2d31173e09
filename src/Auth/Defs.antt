-- ===== src/Auth/Defs.antt =====
-- internal/server/auth/auth.go and the development verifier of cmd/spool-rack/main.go.
use spool_rack.Prelude.{
  ℕ, Bytes, codes, is_empty, Bool, false, ◌&&◌, not, Option, none, some, List, [], ◌∷◌, map, ◌==◌,
  bytes_eq, lookup, leb, if◌then◌else◌, ◌+◌,
}
use spool_rack.Prelude.Space.{trim_space, cut_space}
use spool_rack.Fault.{Result, ok, err, missing_credential, malformed_credential, invalid_token}

abbrev pub Role : Type 0
Role = Bytes

abbrev pub role_viewer : Role
role_viewer = codes "viewer"

abbrev pub role_contributor : Role
role_contributor = codes "contributor"

abbrev pub role_admin : Role
role_admin = codes "admin"

-- `roleRank`
unfoldable pub role_rank : Role → Option ℕ
role_rank r =
    if r == role_viewer
    then some 0
    else if r == role_contributor
    then some 1
    else if r == role_admin
    then some 2
    else none

-- `Role.Satisfies` on the two looked up ranks
abbrev pub rank_satisfies : Option ℕ → Option ℕ → Bool
rank_satisfies (some rr) (some required) = leb required rr
rank_satisfies _ _ = false

unfoldable pub satisfies : Role → Role → Bool
satisfies r required = rank_satisfies (role_rank r) (role_rank required)

pub data CredentialKind : Type 0 where
  bearer api_key : CredentialKind

pub record Credential : Type 0 where
  pub kind : CredentialKind
  pub token : Bytes

pub record Claims : Type 0 where
  pub tenant_id : Bytes
  pub role : Role
  pub subject : Bytes

-- a `Verifier`
abbrev pub Verifier : Type 0
Verifier = Bytes → Result Claims

abbrev or_invalid : Option Claims → Result Claims
or_invalid none = err invalid_token
or_invalid (some claims) = ok claims

unfoldable pub static_verifier : List (Bytes × Claims) → Verifier
static_verifier tokens raw_token = or_invalid (lookup raw_token tokens)

unfoldable pub permissive_verifier : Verifier
permissive_verifier raw_token =
    if is_empty raw_token
    then err invalid_token
    else ok (record { tenant_id = []; role = role_admin; subject = raw_token })

unfoldable pub dev_tenant_verifier : Bytes → Verifier
dev_tenant_verifier tenant_id raw_token =
    if is_empty raw_token
    then err invalid_token
    else ok (record { tenant_id = tenant_id; role = role_admin; subject = raw_token })

-- The values of the `Authorization` and `X-Api-Key` headers, in order.
pub record Headers : Type 0 where
  pub authorization : List Bytes
  pub x_api_key : List Bytes

unfoldable pub to_lower : ℕ → ℕ
to_lower c = if leb b'A' c && leb c b'Z' then c + 32 else c

-- `strings.EqualFold(scheme, "Bearer")`; no letter of the word folds with one outside ASCII
unfoldable pub is_bearer : Bytes → Bool
is_bearer scheme = map to_lower scheme == codes "bearer"

abbrev token_of : CredentialKind → Bytes → Result Credential
token_of kind token =
    if is_empty token then err malformed_credential else ok (record { kind = kind; token = token })

abbrev pub bearer_of : Option (Bytes × Bytes) → Result Credential
bearer_of none = err malformed_credential
bearer_of (some (scheme, token)) =
    if not (is_bearer scheme) then err malformed_credential else token_of bearer (trim_space token)

abbrev pub parse_authorization : Bytes → Result Credential
parse_authorization authorization =
    if is_empty authorization then err malformed_credential else bearer_of (cut_space authorization)

abbrev from_api_key : List Bytes → Result Credential
from_api_key [] = err missing_credential
from_api_key (value ∷ rest) = token_of api_key (trim_space value)

abbrev pub from_headers : List Bytes → List Bytes → Result Credential
from_headers [] keys = from_api_key keys
from_headers (value ∷ rest) keys = parse_authorization (trim_space value)

unfoldable pub extract_credential : Headers → Result Credential
extract_credential r = from_headers r.authorization r.x_api_key
