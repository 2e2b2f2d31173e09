-- ===== src/Auth/Roles.antt =====
-- The three roles are a chain.
use spool_rack.Prelude.{◌≡◌, Option, true, ℕ, arith, bytes_beq_iff}
use spool_rack.Auth.Defs.{
  Role, role_rank, satisfies, rank_satisfies, role_viewer, role_contributor, role_admin,
}

rank_satisfies_trans :
    (a b c : Option ℕ)
    → rank_satisfies a b ≡ true
    → rank_satisfies b c ≡ true
    → rank_satisfies a c ≡ true
rank_satisfies_trans a b c p q = ground arith

-- A caller whose role satisfies a requirement satisfies everything that the required role
-- satisfies.
pub satisfies_trans :
    (r s t : Role) → satisfies r s ≡ true → satisfies s t ≡ true → satisfies r t ≡ true
unfolding satisfies
satisfies_trans r s t = rank_satisfies_trans (role_rank r) (role_rank s) (role_rank t)

-- Roles that satisfy one another are the same role, and only recognised roles satisfy anything.
pub satisfies_antisymm : (r s : Role) → satisfies r s ≡ true → satisfies s r ≡ true → r ≡ s
unfolding satisfies role_rank
satisfies_antisymm r s p q = ground (
  arith,
  bytes_beq_iff r role_viewer,
  bytes_beq_iff r role_contributor,
  bytes_beq_iff r role_admin,
  bytes_beq_iff s role_viewer,
  bytes_beq_iff s role_contributor,
  bytes_beq_iff s role_admin,
)
