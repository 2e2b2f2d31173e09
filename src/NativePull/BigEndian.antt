-- ===== src/NativePull/BigEndian.antt =====
-- `binary.BigEndian` of the Go standard library, for any number of bytes.
use spool_rack.Prelude.{
  ℕ, zero, suc, ◌+◌, ◌*◌, ◌/◌, ◌%◌, ◌^◌, ◌<◌, Bytes, [], ◌∷◌, ◌++◌, length, length-append, ◌≡◌,
  refl, ◌∙◌, arith,
}

unfoldable pub put_uint : ℕ → ℕ → Bytes
put_uint zero v = []
put_uint (suc size) v = put_uint size (v / 256) ++ (v % 256) ∷ []

-- the value of the bytes that follow bytes of the value `high`
unfoldable pub uint_from : ℕ → Bytes → ℕ
uint_from high [] = high
uint_from high (b ∷ s) = uint_from (high * 256 + b) s

uint_from-append :
    (high : ℕ) (s : Bytes) (b : ℕ) → uint_from high (s ++ b ∷ []) ≡ uint_from high s * 256 + b
unfolding uint_from
uint_from-append high [] b = refl
uint_from-append high (c ∷ s) b = uint_from-append (high * 256 + c) s b

pub length-put_uint : (size v : ℕ) → length (put_uint size v) ≡ size
unfolding put_uint
length-put_uint zero v = refl
length-put_uint (suc size) v =
    length-append (put_uint size (v / 256)) ((v % 256) ∷ [])
    ∙ ground (arith, length-put_uint size (v / 256))

quotient_bound : (X v : ℕ) → v < 256 * X → v / 256 < X
quotient_bound X v h = omega arith

rejoin : (v high : ℕ) → high ≡ v / 256 → high * 256 + v % 256 ≡ v
rejoin v high e = omega arith

fits : (size v : ℕ) → v < 256 ^ suc size → v < 256 * 256 ^ size
fits size v h = omega (arith, h)

-- A number that fits the bytes is read back.
pub uint_from-put_uint : (size v : ℕ) → v < 256 ^ size → uint_from 0 (put_uint size v) ≡ v
unfolding put_uint uint_from
uint_from-put_uint zero v h = omega arith
uint_from-put_uint (suc size) v h =
    let ih = uint_from-put_uint size (v / 256) (quotient_bound (256 ^ size) v (fits size v h)) in
    uint_from-append 0 (put_uint size (v / 256)) (v % 256) ∙ rejoin v _ ih
