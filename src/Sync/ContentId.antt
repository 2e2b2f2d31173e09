-- ===== src/Sync/ContentId.antt =====
-- `ContentID` and `validContentID` of internal/server/sync/framing.go, which nativepull repeats.
use spool_rack.Prelude.{
  Bytes, Bool, true, false, Option, none, some, All, length, ◌≡◌, ◌↔◌, ◌==◌, subst, bytes_eq,
  bytes_beq_iff, nat_beq, arith, Option-cases, inl, inr, if◌then◌else◌,
}
use spool_rack.Prelude.Hex.{
  decode, encode, IsHexDigit, length-encode, encode-IsHexDigit, decode-IsByte, encode-decode,
}
use spool_rack.Sync.Contract.{Contract, HasDigests}

abbrev re_encodes : Bytes → Option Bytes → Bool
re_encodes id none = false
re_encodes id (some decoded) = encode decoded == id

unfoldable pub valid_content_id : Bytes → Bool
valid_content_id id = if nat_beq (length id) 64 then re_encodes id (decode id) else false

unfoldable pub content_id : Contract → Bytes → Bytes
content_id g content = encode (g.blake3 content)

-- 64 lowercase hexadecimal digits
abbrev pub IsContentId : Bytes → Type 0
IsContentId id = (length id ≡ 64) × All IsHexDigit id

sound : (id : Bytes) → valid_content_id id ≡ true → IsContentId id
unfolding valid_content_id
sound id h = elim (Option-cases (decode id)) [
  | inl e ↦ absurd (ground (arith, e))
  | inr (bs, e) ↦
      let same : encode bs ≡ id = ground (arith, e, bytes_beq_iff (encode bs) id) in
      (ground arith, subst (All IsHexDigit) same (encode-IsHexDigit bs (decode-IsByte id e)))
]

complete : (id : Bytes) → IsContentId id → valid_content_id id ≡ true
unfolding valid_content_id
complete id h =
    let (bs, e, same) = encode-decode id 32 (omega arith) h.1 in
    ground (arith, e, same, h.0, bytes_beq_iff (encode bs) id)

-- A content ID is accepted exactly if it is 64 lowercase hexadecimal digits.
pub valid_content_id_iff : (id : Bytes) → (valid_content_id id ≡ true) ↔ IsContentId id
valid_content_id_iff id = (sound id, complete id)

-- Whatever the content, its computed ID is accepted, given that a digest is 32 bytes.
pub content_id-valid :
    (g : Contract) → HasDigests g → (d : Bytes) → valid_content_id (content_id g d) ≡ true
unfolding content_id
content_id-valid g law d = complete (encode (g.blake3 d)) (
  omega (arith, length-encode (g.blake3 d), law.size d),
  encode-IsHexDigit (g.blake3 d) (law.bytes d),
)
