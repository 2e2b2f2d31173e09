-- ===== src/Prelude/Text.antt =====
-- Go strings and byte slices as lists of byte values; the parts of `strings`, `encoding/hex` and
-- `encoding/binary` that the server uses.
use Prim.Native.Nat.{ℕ}
use Prim.Native.Char.{code}
use Prim.Native.String.{String}
use mathlib.Core.Path.{◌≡◌, refl}
use mathlib.Core.Logic.{◌↔◌, ◌⊎◌, inl, inr}
use native.Mathlib.Omega.{arith}
use mathlib.Core.Bool.{Bool, true, false, ◌&&◌, ◌||◌}
use mathlib.Core.List.{List, [], ◌∷◌}
use spool_rack.Prelude.Tests.{ltb, nat_beq}
use spool_rack.Prelude.Keys.{Eq, nat_eq, list_beq, list_beq_iff}

abbrev pub Bytes : Type 0
Bytes = List ℕ

unfoldable pub bytes_beq : Bytes → Bytes → Bool
bytes_beq = list_beq

pub bytes_beq_iff : (a b : Bytes) → (bytes_beq a b ≡ true) ↔ (a ≡ b)
unfolding bytes_beq
bytes_beq_iff a b = list_beq_iff a b

instance abbrev pub bytes_eq : Eq Bytes
bytes_eq = record { same = bytes_beq; same_iff = bytes_beq_iff }

-- the bytes of an ASCII literal
abbrev pub codes : String → Bytes
codes String.[] = []
codes (String.◌∷◌ c s) = code c ∷ codes s

abbrev pub is_empty {ℓ} : {A : Type ℓ} → List A → Bool
is_empty [] = true
is_empty (x ∷ xs) = false

pub is_empty_nil {ℓ} : {A : Type ℓ} (xs : List A) → is_empty xs ≡ true → xs ≡ []
is_empty_nil [] h = refl
is_empty_nil (x ∷ xs) h = cc h

-- Go compares strings byte by byte.
unfoldable pub bytes_ltb : Bytes → Bytes → Bool
bytes_ltb [] [] = false
bytes_ltb [] (y ∷ ys) = true
bytes_ltb (x ∷ xs) [] = false
bytes_ltb (x ∷ xs) (y ∷ ys) = ltb x y || (nat_beq x y && bytes_ltb xs ys)

pub bytes_ltb_self : (a : Bytes) → bytes_ltb a a ≡ false
unfolding bytes_ltb
bytes_ltb_self [] = refl
bytes_ltb_self (x ∷ a) = ground (arith, bytes_ltb_self a)

pub bytes_ltb_trans :
    (a b c : Bytes) → bytes_ltb a b ≡ true → bytes_ltb b c ≡ true → bytes_ltb a c ≡ true
unfolding bytes_ltb
bytes_ltb_trans a [] [] h k = h
bytes_ltb_trans a (y ∷ b) [] h k = cc k
bytes_ltb_trans [] [] (z ∷ c) h k = k
bytes_ltb_trans (x ∷ a) [] (z ∷ c) h k = cc h
bytes_ltb_trans [] (y ∷ b) (z ∷ c) h k = refl
bytes_ltb_trans (x ∷ a) (y ∷ b) (z ∷ c) h k = ground (arith, bytes_ltb_trans a b c)

-- Whatever stands between two texts in order is after the first or before the second.
pub bytes_ltb_split :
    (a b c : Bytes) → bytes_ltb a c ≡ true → (bytes_ltb a b ≡ true) ⊎ (bytes_ltb b c ≡ true)
unfolding bytes_ltb
bytes_ltb_split a [] [] h = inl h
bytes_ltb_split a [] (z ∷ c) h = inr refl
bytes_ltb_split [] (y ∷ b) c h = inl refl
bytes_ltb_split (x ∷ a) (y ∷ b) [] h = ground arith
bytes_ltb_split (x ∷ a) (y ∷ b) (z ∷ c) h = ground (arith, bytes_ltb_split a b c)

-- `strings.HasPrefix`
unfoldable pub has_prefix : Bytes → Bytes → Bool
has_prefix s [] = true
has_prefix [] (p ∷ ps) = false
has_prefix (c ∷ s) (p ∷ ps) = nat_beq c p && has_prefix s ps
