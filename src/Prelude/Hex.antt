-- ===== src/Prelude/Hex.antt =====
-- `encoding/hex` of the Go standard library: lowercase encoding, and decoding of either case.
use Prim.Native.Nat.{ℕ, ◌+◌, ◌-◌, ◌*◌, ◌/◌, ◌%◌, ◌<◌, ◌≤◌}
use mathlib.Core.Path.{◌≡◌, refl, ap}
use mathlib.Core.Logic.{◌⊎◌, inl, inr}
use mathlib.Core.Bool.{◌&&◌}
use mathlib.Core.Option.{Option, none, some}
use mathlib.Core.List.{[], ◌∷◌}
use native.Mathlib.Omega.{arith}
use spool_rack.Prelude.Tests.{if◌then◌else◌, leb, ltb}
use spool_rack.Prelude.Lists.{length, All}
use spool_rack.Prelude.Text.{Bytes}

-- `hex.fromHexChar`
unfoldable pub hex_value : ℕ → Option ℕ
hex_value c =
    if leb b'0' c && leb c b'9'
    then some (c - b'0')
    else if leb b'a' c && leb c b'f'
    then some (c - b'a' + 10)
    else if leb b'A' c && leb c b'F'
    then some (c - b'A' + 10)
    else none

unfoldable pub hex_digit : ℕ → ℕ
hex_digit v = if ltb v 10 then b'0' + v else b'a' + (v - 10)

-- one byte from the values of its two digits
abbrev pub push_byte : Option ℕ → Option ℕ → Option Bytes → Option Bytes
push_byte (some h) (some l) (some rest) = some ((h * 16 + l) ∷ rest)
push_byte _ _ _ = none

-- `hex.DecodeString`: `none` for an odd length or a byte that is no digit
unfoldable pub decode : Bytes → Option Bytes
unfolding hex_value
decode [] = some []
decode (h ∷ []) = none
decode (h ∷ l ∷ s) = push_byte (hex_value h) (hex_value l) (decode s)

-- `hex.EncodeToString`
unfoldable pub encode : Bytes → Bytes
unfolding hex_digit
encode [] = []
encode (b ∷ bs) = hex_digit (b / 16) ∷ hex_digit (b % 16) ∷ encode bs

abbrev pub IsByte : ℕ → Type 0
IsByte b = b < 256

-- a lowercase hexadecimal digit
abbrev pub IsHexDigit : ℕ → Type 0
IsHexDigit c = ((b'0' ≤ c) × (c ≤ b'9')) ⊎ ((b'a' ≤ c) × (c ≤ b'f'))

hex_value-hex_digit : (v : ℕ) → v < 16 → hex_value (hex_digit v) ≡ some v
unfolding hex_value hex_digit
hex_value-hex_digit v h = ground arith

hex_digit-IsHexDigit : (v : ℕ) → v < 16 → IsHexDigit (hex_digit v)
unfolding hex_digit
hex_digit-IsHexDigit v h = ground arith

pub decode-encode : (bs : Bytes) → All IsByte bs → decode (encode bs) ≡ some bs
unfolding decode encode
decode-encode [] h = refl
decode-encode (b ∷ bs) h =
    rw
      (
        hex_value-hex_digit (b / 16) (omega arith),
        hex_value-hex_digit (b % 16) (omega arith),
        decode-encode bs h.1,
      )
      (ap (λ x. some (x ∷ bs)) (omega arith))

pub length-encode : (bs : Bytes) → length (encode bs) ≡ 2 * length bs
unfolding encode
length-encode [] = refl
length-encode (b ∷ bs) = omega (arith, length-encode bs)

pub encode-IsHexDigit : (bs : Bytes) → All IsByte bs → All IsHexDigit (encode bs)
unfolding encode
encode-IsHexDigit [] h = tt
encode-IsHexDigit (b ∷ bs) h = (
  hex_digit-IsHexDigit (b / 16) (omega arith),
  (hex_digit-IsHexDigit (b % 16) (omega arith), encode-IsHexDigit bs h.1),
)

-- Decoded values are bytes.
push_byte-eq-some :
    (h l : Option ℕ) (r : Option Bytes) {bs : Bytes}
    → push_byte h l r ≡ some bs
    → (x y : ℕ) × (rest : Bytes) × (h ≡ some x)
      × (l ≡ some y)
      × (r ≡ some rest)
      × (bs ≡ (x * 16 + y) ∷ rest)
push_byte-eq-some (some x) (some y) (some rest) e = (x, y, rest, refl, refl, refl, cc)
push_byte-eq-some (some x) (some y) none e = cc
push_byte-eq-some (some x) none r e = cc
push_byte-eq-some none l r e = cc

hex_value-lt : (c v : ℕ) → hex_value c ≡ some v → v < 16
unfolding hex_value
hex_value-lt c v e = ground arith

pub decode-IsByte : (s : Bytes) {bs : Bytes} → decode s ≡ some bs → All IsByte bs
unfolding decode
decode-IsByte [] e = ground arith
decode-IsByte (h ∷ []) e = cc
decode-IsByte (h ∷ l ∷ s) e =
    let (x, y, rest, p, q, r, eq) = push_byte-eq-some (hex_value h) (hex_value l) (decode s) e in
    rw eq (ground (arith, hex_value-lt h x, hex_value-lt l y), decode-IsByte s r)

hex_value-IsHexDigit :
    (c : ℕ) → IsHexDigit c → (v : ℕ) × (hex_value c ≡ some v) × (hex_digit v ≡ c) × (v < 16)
unfolding hex_value hex_digit
hex_value-IsHexDigit c (inl h) = (c - b'0', ground arith, ground arith, omega arith)
hex_value-IsHexDigit c (inr h) = (c - b'a' + 10, ground arith, ground arith, omega arith)

-- Lowercase text of even length decodes to bytes that encode back to it.
pub encode-decode :
    (s : Bytes) (n : ℕ)
    → length s ≡ 2 * n
    → All IsHexDigit s
    → (bs : Bytes) × (decode s ≡ some bs) × (encode bs ≡ s)
unfolding decode encode
encode-decode [] n len h = ([], refl, refl)
encode-decode (c ∷ []) n len h = absurd (omega arith)
encode-decode (c ∷ d ∷ s) n len h =
    let (x, p, p', px) = hex_value-IsHexDigit c h.0 in
    let (y, q, q', qy) = hex_value-IsHexDigit d h.1.0 in
    let (bs, r, r') = encode-decode s (n - 1) (omega arith) h.1.1 in
    let hi : (x * 16 + y) / 16 ≡ x = omega arith in
    let lo : (x * 16 + y) % 16 ≡ y = omega arith in
    ((x * 16 + y) ∷ bs, rw (p, q, r), rw (hi, lo, p', q', r'))
