-- ===== src/Prelude/Space.antt =====
-- `strings.TrimSpace` and `strings.Cut` over texts given by their code points.
use spool_rack.Prelude.Tests.{if◌then◌else◌, leb, nat_beq, Bool-cases}
use spool_rack.Prelude.Text.{Bytes}
use Prim.Native.Nat.{ℕ}
use mathlib.Core.Path.{◌≡◌, refl, sym, ap, ◌∙◌, subst}
use spool_rack.Prelude.Lists.{All}
use mathlib.Core.Logic.{inl, inr}
use mathlib.Core.Bool.{Bool, false, ◌&&◌, ◌||◌}
use mathlib.Core.Option.{Option, none, some}
use mathlib.Core.List.{[], ◌∷◌, ◌++◌, reverse, reverse-append, reverse-reverse}

-- `unicode.IsSpace`
unfoldable pub is_space : ℕ → Bool
is_space c =
    (leb 9 c && leb c 13)
    || nat_beq c 32
    || nat_beq c 0x85
    || nat_beq c 0xa0
    || nat_beq c 0x1680
    || (leb 0x2000 c && leb c 0x200a)
    || nat_beq c 0x2028
    || nat_beq c 0x2029
    || nat_beq c 0x202f
    || nat_beq c 0x205f
    || nat_beq c 0x3000

-- `strings.TrimLeftFunc(s, unicode.IsSpace)`
unfoldable pub trim_left : Bytes → Bytes
trim_left [] = []
trim_left (c ∷ s) = if is_space c then trim_left s else c ∷ s

-- `strings.TrimSpace`
unfoldable pub trim_space : Bytes → Bytes
trim_space s = reverse (trim_left (reverse (trim_left s)))

-- `strings.Cut(s, " ")`: the parts before and after the first space
unfoldable pub cut_space : Bytes → Option (Bytes × Bytes)
cut_space [] = none
cut_space (c ∷ s) =
    if nat_beq c 32
    then some ([], s)
    else elim (cut_space s) [ none ↦ none | some (a, b) ↦ some (c ∷ a, b) ]

-- The text does not begin with a space.
abbrev pub StartsClean : Bytes → Type 0
StartsClean [] = Unit
StartsClean (c ∷ s) = is_space c ≡ false

-- The text neither begins nor ends with a space.
abbrev pub IsTrimmed : Bytes → Type 0
IsTrimmed s = StartsClean s × StartsClean (reverse s)

pub trim_left-eq_of_clean : (s : Bytes) → StartsClean s → trim_left s ≡ s
unfolding trim_left
trim_left-eq_of_clean [] h = refl
trim_left-eq_of_clean (c ∷ s) h = rw h

pub trim_left-StartsClean : (s : Bytes) → StartsClean (trim_left s)
unfolding trim_left
trim_left-StartsClean [] = tt
trim_left-StartsClean (c ∷ s) = elim (Bool-cases (is_space c)) [
  | inl e ↦ rw e (trim_left-StartsClean s)
  | inr e ↦ rw e e
]

pub trim_space-eq_of_trimmed : (s : Bytes) → IsTrimmed s → trim_space s ≡ s
unfolding trim_space
trim_space-eq_of_trimmed s h =
    rw (trim_left-eq_of_clean s h.0, trim_left-eq_of_clean (reverse s) h.1) (reverse-reverse s)

-- What `trim_left` drops stands in front of what it keeps.
trim_left-splits : (s : Bytes) → (p : Bytes) × (s ≡ p ++ trim_left s)
unfolding trim_left
trim_left-splits [] = ([], refl)
trim_left-splits (c ∷ s) = elim (Bool-cases (is_space c)) [
  | inl e ↦ let (p, q) = trim_left-splits s in (c ∷ p, rw e (ap (◌∷◌ c) q))
  | inr e ↦ ([], rw e)
]

StartsClean-prefix : (a b : Bytes) → StartsClean (a ++ b) → StartsClean a
StartsClean-prefix [] b h = tt
StartsClean-prefix (c ∷ a) b h = h

pub trim_space-IsTrimmed : (s : Bytes) → IsTrimmed (trim_space s)
unfolding trim_space
trim_space-IsTrimmed s =
    let u = trim_left s in
    let (p, q) = trim_left-splits (reverse u) in
    let split : u ≡ reverse (trim_left (reverse u)) ++ reverse p =
      sym (reverse-reverse u) ∙ ap reverse q ∙ reverse-append p (trim_left (reverse u)) in
    (
      StartsClean-prefix _ (reverse p) (subst StartsClean split (trim_left-StartsClean s)),
      subst StartsClean (sym (reverse-reverse (trim_left (reverse u))))
          (trim_left-StartsClean (reverse u)),
    )

-- A text with no space in it is cut at the space that follows it.
pub cut_space-append :
    (a b : Bytes) → All (λ c. nat_beq c 32 ≡ false) a → cut_space (a ++ 32 ∷ b) ≡ some (a, b)
unfolding cut_space
cut_space-append [] b h = refl
cut_space-append (c ∷ a) b h = rw (h.0, cut_space-append a b h.1)
