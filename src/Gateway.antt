-- ===== src/Gateway.antt =====
-- internal/server/gateway: what a request passes before its handler runs.
pub mod Access
pub mod AccessLaws
pub mod Version
pub mod Upload
pub mod Told
pub mod UploadSound
