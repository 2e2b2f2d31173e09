-- ===== src/Auth.antt =====
-- internal/server/auth/auth.go: roles, claims, the two verifiers and the extraction of a
-- credential from a request's headers. Texts are given by their code points.
pub mod Defs
pub mod Roles
pub mod Header
