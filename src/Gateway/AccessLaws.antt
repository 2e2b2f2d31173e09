-- ===== src/Gateway/AccessLaws.antt =====
-- Who gets through a repository route, and into which scope.
use spool_rack.Prelude.{
  Bytes, is_empty, true, false, not, some, ◌≡◌, ◌↔◌, arith, if◌then◌else◌, Bool-cases, inl, inr,
}
use spool_rack.Fault.{ok, Result-cases}
use spool_rack.Auth.Defs.{Role, Credential, Claims, Verifier, extract_credential, satisfies}
use spool_rack.Cas.Scope.{Scope, new_scope}
use spool_rack.Cas.Segment.{new_scope_iff}
use spool_rack.Gateway.Access.{
  Request, Context, served, Handler, background, authenticate, require_repo_scope, require_role,
  repo_route, repo_of,
}

-- The handler behind the checks answers with the context that it was given.
abbrev pub answer : Handler
answer r ctx = served ctx

-- The tenant that a request acts for: its header, or the tenant of its claims.
abbrev pub tenant_for : Request → Claims → Bytes
tenant_for r claims = if not (is_empty r.tenant_header) then r.tenant_header else claims.tenant_id

-- What a request shows that gets through a route which requires `required`.
pub record Granted (verifier : Verifier) (required : Role) (r : Request) (ctx : Context)
    : Type 0 where
  pub credential : Credential
  pub claims : Claims
  pub scope : Scope
  pub extracts : extract_credential r.headers ≡ ok credential
  pub verifies : verifier credential.token ≡ ok claims
  pub has_role : satisfies claims.role required ≡ true
  pub has_tenant : is_empty (tenant_for r claims) ≡ false
  pub fences : new_scope (tenant_for r claims) (repo_of r) ≡ ok scope
  pub context_is : ctx ≡ record {
    credential = some credential;
    claims = some (record claims { tenant_id = tenant_for r claims });
    tenant_id = some (tenant_for r claims);
    scope = some scope;
  }

served-eq : {a b : Context} → served a ≡ served b → b ≡ a
served-eq h = cc

module _ (verifier : Verifier) (required : Role) (r : Request) (ctx : Context) where
  Granted-answer :
      Granted verifier required r ctx
      → repo_route verifier required answer r background ≡ served ctx
  unfolding repo_route authenticate require_repo_scope require_role
  Granted-answer g = rw (g.extracts, g.verifies, g.has_tenant, g.fences, g.has_role, g.context_is)

  answer-Granted :
      repo_route verifier required answer r background ≡ served ctx
      → Granted verifier required r ctx
  unfolding repo_route authenticate require_repo_scope require_role
  answer-Granted h = elim (Result-cases (extract_credential r.headers)) [
    | inr (e, p) ↦ cc (rw p at h)
    | inl (cred, p) ↦ elim (Result-cases (verifier cred.token)) [
      | inr (e, q) ↦ cc (rw (p, q) at h)
      | inl (claims, q) ↦ elim (Bool-cases (is_empty (tenant_for r claims))) [
        | inl t ↦ cc (rw (p, q, t) at h)
        | inr t ↦ elim (Result-cases (new_scope (tenant_for r claims) (repo_of r))) [
          | inr (e, n) ↦ cc (rw (p, q, t, n) at h)
          | inl (scope, n) ↦ elim (Bool-cases (satisfies claims.role required)) [
            | inr s ↦ cc (rw (p, q, t, n, s) at h)
            | inl s ↦ record {
              credential = cred;
              claims = claims;
              scope = scope;
              extracts = p;
              verifies = q;
              has_role = s;
              has_tenant = t;
              fences = n;
              context_is = served-eq (rw (p, q, t, n, s) at h);
            }
          ]
        ]
      ]
    ]
  ]

  -- A repository route lets a request through, with this context, exactly when the request carries
  -- a credential that the verifier accepts, the verified role satisfies the route's, and the tenant
  -- it names is not empty and forms a scope with the repository of the path.
  pub repo_route_iff :
      (repo_route verifier required answer r background ≡ served ctx)
      ↔ Granted verifier required r ctx
  repo_route_iff = (answer-Granted, Granted-answer)

-- A caller whom the verifier places in one tenant acts for any other that it names: where the route
-- would serve the request, the scope is that of the `X-Tenant-ID` header, whatever the claims say.
pub tenant_header_wins :
    (verifier : Verifier) (required : Role) (r : Request) (ctx : Context) {scope : Scope}
    → is_empty r.tenant_header ≡ false
    → repo_route verifier required answer r background ≡ served ctx
    → ctx.scope ≡ some scope
    → (scope.tenant_id ≡ r.tenant_header) × (ctx.tenant_id ≡ some r.tenant_header)
tenant_header_wins verifier required r ctx {scope} named h e =
    let g = answer-Granted verifier required r ctx h in
    let t : tenant_for r g.claims ≡ r.tenant_header = rw named in
    let c = g.context_is in
    let (_, _, made) = (new_scope_iff (tenant_for r g.claims) (repo_of r) g.scope).0 g.fences in
    let same : g.scope ≡ scope = ground arith in (rw (← same) (rw made t), rw c (rw t))
