-- ===== src/Tests/GatewayRuns.antt =====
-- The properties of roles, credentials, scopes, routes and version windows, at concrete requests.
use spool_rack.Prelude.{
  ℕ, ◌≤◌, codes, true, false, some, [], ◌∷◌, ◌≡◌, ◌≢◌, ◌⊎◌, ◌↔◌, refl, bytes_beq, bytes_eq,
}
use spool_rack.Prelude.Space.{trim_space, trim_left, is_space}
use spool_rack.Fault.{ok}
use spool_rack.Auth.Defs.{
  role_viewer, role_contributor, role_admin, role_rank, satisfies, Credential, Verifier, Headers,
  bearer, extract_credential, dev_tenant_verifier, is_bearer, to_lower,
}
use spool_rack.Auth.Header.{IsToken, Source, extract_credential_sound, extract-bearer}
use spool_rack.Cas.Scope.{Scope, new_scope, validate_scope_segment, matches_pattern}
use spool_rack.Cas.Segment.{IsSegment, NoSeparator, new_scope_iff, new_scope_plain}
use spool_rack.Gateway.Access.{
  Request, Context, served, background, repo_route, authenticate, require_repo_scope, require_role,
}
use spool_rack.Gateway.AccessLaws.{Granted, answer, repo_route_iff, tenant_header_wins}
use spool_rack.Gateway.Version.{
  env_version_window, accepts, default_pack_format_window, set_min_pack_format_version,
  pack_format_v2, env_version_window_sound, push_minimum,
}

admin_covers : satisfies role_admin role_contributor ≡ true
unfolding satisfies role_rank bytes_beq
admin_covers = refl

contributor_covers : satisfies role_contributor role_viewer ≡ true
unfolding satisfies role_rank bytes_beq
contributor_covers = refl

admin_itself : satisfies role_admin role_admin ≡ true
unfolding satisfies role_rank bytes_beq
admin_itself = refl

abbrev headers : Headers
headers = record { authorization = codes "BEARER t1" ∷ []; x_api_key = [] }

abbrev t1 : Credential
t1 = record { kind = bearer; token = codes "t1" }

t1-IsToken : IsToken (codes "t1")
unfolding trim_space trim_left is_space
t1-IsToken = ((refl, refl), refl)

bearer_is_spelled : is_bearer (codes "BEARER") ≡ true
unfolding is_bearer bytes_beq to_lower
bearer_is_spelled = refl

bearer_extracted : extract_credential headers ≡ ok t1
bearer_extracted = extract-bearer (codes "BEARER") (codes "t1") [] [] bearer_is_spelled t1-IsToken

extract_credential_sound_example : IsToken t1.token × Source t1.kind headers.authorization
extract_credential_sound_example = extract_credential_sound headers bearer_extracted

abbrev acme : Scope
acme = record { tenant_id = codes "acme"; repo_id = codes "r1" }

acme_is_made : new_scope (codes "acme") (codes "r1") ≡ ok acme
unfolding new_scope validate_scope_segment matches_pattern bytes_beq
acme_is_made = refl

new_scope_iff_example : (new_scope (codes "acme") (codes "r1") ≡ ok acme) ↔ (
    IsSegment (codes "acme")
    × IsSegment (codes "r1")
    × (acme ≡ record { tenant_id = codes "acme"; repo_id = codes "r1" }))
new_scope_iff_example = new_scope_iff (codes "acme") (codes "r1") acme

new_scope_plain_example :
    (NoSeparator acme.tenant_id
      × (acme.tenant_id ≢ [])
      × (acme.tenant_id ≢ codes ".")
      × (acme.tenant_id ≢ codes ".."))
    × (NoSeparator acme.repo_id
        × (acme.repo_id ≢ [])
        × (acme.repo_id ≢ codes ".")
        × (acme.repo_id ≢ codes ".."))
new_scope_plain_example = new_scope_plain (codes "acme") (codes "r1") acme_is_made

abbrev a_request : Request
a_request = record {
  headers = headers;
  tenant_header = codes "acme";
  workspace_value = [];
  repo_value = codes "r1";
}

-- the verifier places every token in the tenant `other`
abbrev others : Verifier
others = dev_tenant_verifier (codes "other")

abbrev a_context : Context
a_context = record {
  credential = some t1;
  claims = some (record { tenant_id = codes "acme"; role = role_admin; subject = codes "t1" });
  tenant_id = some (codes "acme");
  scope = some acme;
}

route_serves : repo_route others role_viewer answer a_request background ≡ served a_context
unfolding repo_route authenticate require_repo_scope require_role dev_tenant_verifier satisfies
    role_rank bytes_beq
route_serves = rw (bearer_extracted, acme_is_made) refl

repo_route_iff_example :
    (repo_route others role_viewer answer a_request background ≡ served a_context)
    ↔ Granted others role_viewer a_request a_context
repo_route_iff_example = repo_route_iff others role_viewer a_request a_context

tenant_header_wins_example :
    (acme.tenant_id ≡ codes "acme") × (a_context.tenant_id ≡ some (codes "acme"))
tenant_header_wins_example =
    tenant_header_wins others role_viewer a_request a_context refl route_serves refl

env_version_window_sound_example :
    let w = env_version_window (codes "2") 3 in
    (w.min ≤ w.max)
    × (w.max ≡ 3)
    × (accepts w 3 ≡ true)
    × ((v : ℕ) → (accepts w v ≡ true) ↔ ((v ≡ 0) ⊎ ((w.min ≤ v) × (v ≤ 3))))
env_version_window_sound_example = env_version_window_sound (codes "2") 3

push_minimum_example :
    let w = default_pack_format_window (codes "3") in
    let enforced = set_min_pack_format_version pack_format_v2 w.min in
    (w.min ≤ 3)
    × (w.min ≢ 0 → w.min ≢ 3 → enforced ≡ w.min)
    × (w.min ≡ 3 → (enforced ≡ 2) × (accepts w 2 ≡ false))
    × (w.min ≡ 0 → (enforced ≡ 2) × (accepts w 1 ≡ true))
push_minimum_example = push_minimum (codes "3")
