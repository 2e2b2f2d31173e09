-- ===== src/Gateway/Access.antt =====
-- internal/server/gateway/middleware.go and context.go: the chain of handlers that authenticates a
-- request, fences it to a repository and checks the caller's role.
use spool_rack.Prelude.{Bytes, is_empty, not, Option, none, some, ℕ, if◌then◌else◌}
use spool_rack.Fault.{Result, ok, err}
use spool_rack.Auth.Defs.{
  Role, Credential, Claims, Verifier, Headers, extract_credential, satisfies,
}
use spool_rack.Cas.Scope.{Scope, new_scope}

-- What the handlers read of a request. A path value that the route lacks is empty, and so is an
-- absent `X-Tenant-ID`.
pub record Request : Type 0 where
  pub headers : Headers
  pub tenant_header : Bytes
  pub workspace_value : Bytes
  pub repo_value : Bytes

-- The values that the handlers put into the request's context.
pub record Context : Type 0 where
  pub credential : Option Credential
  pub claims : Option Claims
  pub tenant_id : Option Bytes
  pub scope : Option Scope

abbrev pub background : Context
background = record { credential = none; claims = none; tenant_id = none; scope = none }

-- The status of a rejected request, or what the next handler answers.
pub data Response : Type 0 where
  rejected : ℕ → Response
  served : Context → Response

abbrev pub Handler : Type 0
Handler = Request → Context → Response

abbrev pub unauthorized : ℕ
unauthorized = 401

abbrev pub bad_request : ℕ
bad_request = 400

abbrev pub forbidden : ℕ
forbidden = 403

abbrev pub with_claims : Handler → Request → Context → Credential → Claims → Response
with_claims next r ctx cred claims =
    let tenant_id = if not (is_empty r.tenant_header) then r.tenant_header else claims.tenant_id in
    next r (record ctx {
      credential = some cred;
      claims = some (record claims { tenant_id = tenant_id });
      tenant_id = some tenant_id;
    })

abbrev pub verified : Handler → Request → Context → Credential → Result Claims → Response
verified next r ctx cred (err _) = rejected unauthorized
verified next r ctx cred (ok claims) = with_claims next r ctx cred claims

abbrev pub extracted : Verifier → Handler → Request → Context → Result Credential → Response
extracted verifier next r ctx (err _) = rejected unauthorized
extracted verifier next r ctx (ok cred) = verified next r ctx cred (verifier cred.token)

unfoldable pub authenticate : Verifier → Handler → Handler
authenticate verifier next r ctx = extracted verifier next r ctx (extract_credential r.headers)

abbrev pub scoped : Handler → Request → Context → Result Scope → Response
scoped next r ctx (err _) = rejected bad_request
scoped next r ctx (ok scope) = next r (record ctx { scope = some scope })

abbrev pub repo_of : Request → Bytes
repo_of r = if is_empty r.workspace_value then r.repo_value else r.workspace_value

abbrev pub scoped_in : Handler → Request → Context → Option Bytes → Response
scoped_in next r ctx none = rejected bad_request
scoped_in next r ctx (some tenant_id) =
    if is_empty tenant_id
    then rejected bad_request
    else scoped next r ctx (new_scope tenant_id (repo_of r))

unfoldable pub require_repo_scope : Handler → Handler
require_repo_scope next r ctx = scoped_in next r ctx ctx.tenant_id

abbrev pub role_from : Option Claims → Option Role
role_from none = none
role_from (some claims) = some claims.role

abbrev pub checked : Role → Handler → Request → Context → Option Role → Response
checked required next r ctx none = rejected unauthorized
checked required next r ctx (some role) =
    if not (satisfies role required) then rejected forbidden else next r ctx

unfoldable pub require_role : Role → Handler → Handler
require_role required next r ctx = checked required next r ctx (role_from ctx.claims)

-- a route under `/api/v1/repos/{repo}` or `/api/v1/workspaces/{workspace}`
unfoldable pub repo_route : Verifier → Role → Handler → Handler
repo_route verifier required next =
    authenticate verifier (require_repo_scope (require_role required next))
