-- ===== src/Sync.antt =====
-- internal/server/sync: frames, push and pull.
pub mod Contract
pub mod ContentId
pub mod Frame
pub mod Codec
pub mod Valid
pub mod FrameV2
pub mod FrameV3
pub mod OrderV3
pub mod Envelope
pub mod EnvelopeSound
pub mod Stream
pub mod StreamSound
