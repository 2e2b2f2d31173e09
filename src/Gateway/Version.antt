-- ===== src/Gateway/Version.antt =====
-- internal/server/gateway/contractversion.go: the window of accepted wire-format versions.
use spool_rack.Prelude.{
  ℕ, ◌+◌, ◌-◌, ◌*◌, ◌^◌, ◌≤◌, Bytes, is_empty, Bool, true, false, ◌≢◌, ◌↔◌, ◌&&◌, ◌||◌, Option,
  none, some, [], ◌∷◌, ◌≡◌, ◌⊎◌, arith, nat_beq, ltb, leb, if◌then◌else◌,
}

pub record VersionWindow : Type 0 where
  pub min : ℕ
  pub max : ℕ

unfoldable pub accepts : VersionWindow → ℕ → Bool
accepts w v = if nat_beq v 0 then true else leb w.min v && leb v w.max

-- `strconv.ParseUint(raw, 10, 32)` over the digits read so far: an error for a byte that is no
-- digit and for a value past 32 bits
unfoldable pub parse_digits : ℕ → Bytes → Option ℕ
parse_digits n [] = some n
parse_digits n (c ∷ s) =
    let next = n * 10 + (c - b'0') in
    let rest = parse_digits next s in
    if leb b'0' c && leb c b'9' && ltb next (2 ^ 32) then rest else none

unfoldable pub parse_uint32 : Bytes → Option ℕ
parse_uint32 [] = none
parse_uint32 (c ∷ s) = parse_digits 0 (c ∷ s)

abbrev pub lower_min : VersionWindow → ℕ → Option ℕ → VersionWindow
lower_min window current none = window
lower_min window current (some parsed) =
    if ltb current parsed then window else record window { min = parsed }

-- `raw` is the value of the environment variable
unfoldable pub env_version_window : Bytes → ℕ → VersionWindow
env_version_window raw current =
    let window : VersionWindow = record { min = current; max = current } in
    if is_empty raw then window else lower_min window current (parse_uint32 raw)

abbrev pub pack_format_v2 : ℕ
pack_format_v2 = 2

abbrev pub pack_format_v3 : ℕ
pack_format_v3 = 3

unfoldable pub default_pack_format_window : Bytes → VersionWindow
default_pack_format_window raw =
    let window = env_version_window raw pack_format_v3 in
    if is_empty raw then record window { min = pack_format_v2 } else window

-- `PushEngine.SetMinPackFormatVersion`, as `gateway.New` calls it with the window's lower end
unfoldable pub set_min_pack_format_version : ℕ → ℕ → ℕ
set_min_pack_format_version current min =
    if nat_beq min 0 || ltb pack_format_v2 min then current else min

lower_min_sound :
    (current : ℕ) (o : Option ℕ)
    → let w = lower_min (record { min = current; max = current }) current o in
      (w.min ≤ w.max) × (w.max ≡ current)
lower_min_sound current none = omega arith
lower_min_sound current (some n) = ground arith

-- Whatever the variable holds, the window ends at the implemented version and accepts it, and it
-- accepts exactly version 0 and the versions between its ends.
pub env_version_window_sound :
    (raw : Bytes) (current : ℕ)
    → let w = env_version_window raw current in
      (w.min ≤ w.max)
      × (w.max ≡ current)
      × (accepts w current ≡ true)
      × ((v : ℕ) → (accepts w v ≡ true) ↔ ((v ≡ 0) ⊎ ((w.min ≤ v) × (v ≤ current))))
unfolding env_version_window accepts
env_version_window_sound raw current = ground (arith, lower_min_sound current (parse_uint32 raw))

-- The push engine enforces the lower end of the window that the gateway advertises, if that is neither
-- 0 nor 3. If it is 3, the engine goes on taking version 2, which the window does not accept; if it is
-- 0, the engine refuses version 1, which the window accepts. There is no other case.
pub push_minimum :
    (raw : Bytes)
    → let w = default_pack_format_window raw in
      let enforced = set_min_pack_format_version pack_format_v2 w.min in
      (w.min ≤ 3)
      × (w.min ≢ 0 → w.min ≢ 3 → enforced ≡ w.min)
      × (w.min ≡ 3 → (enforced ≡ 2) × (accepts w 2 ≡ false))
      × (w.min ≡ 0 → (enforced ≡ 2) × (accepts w 1 ≡ true))
unfolding default_pack_format_window env_version_window set_min_pack_format_version accepts
push_minimum raw = ground (arith, lower_min_sound pack_format_v3 (parse_uint32 raw))
