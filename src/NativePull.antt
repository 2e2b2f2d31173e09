-- ===== src/NativePull.antt =====
-- internal/server/nativepull: the framing of a pull response that carries native packs.
pub mod Format
pub mod Frame
pub mod BigEndian
pub mod RoundTrip
