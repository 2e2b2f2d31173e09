-- ===== src/Fault.antt =====
-- Errors as values. `Error` has one constructor for each sentinel that callers tell apart with
-- `errors.Is`, and one for each group of plain errors; `%w` keeps the sentinel and `%v` drops it.
use spool_rack.Prelude.{◌≡◌, refl, ◌⊎◌, inl, inr, Bool, true, false, Option, none, some, Bytes}

pub data Error : Type 0 where
  -- internal/server/storage/cas
  invalid_scope invalid_hash hash_mismatch corrupt_object cas_not_found : Error
  -- a canceled context, and a failed call of the operating system or the database
  canceled io_failure : Error
  -- internal/server/auth
  missing_credential malformed_credential invalid_token : Error
  -- internal/server/sync; `non_fast_forward_head` is also the store's error of that name
  invalid_frame invalid_canonical_frame missing_asset unsupported_contract_version : Error
  non_fast_forward_head : Bytes → Error
  invalid_pull_envelope up_to_date : Error
  pull_diverged : Bytes → Error
  -- internal/server/storage/postgres
  branch_not_found branch_already_exists commit_not_found repository_not_found non_fast_forward :
      Error
  immutable_metadata_mismatch missing_tenant : Error
  default_branch_protected default_branch_not_set : Error
  merge_lease_held merge_lease_not_found merge_lease_ownership : Error
  merge_lease_expired merge_lease_mismatch invalid_merge_lease : Error
  no_common_ancestor commit_history_incomplete commit_history_too_deep : Error
  invalid_native_push idempotency_conflict : Error
  -- internal/server/retention and internal/server/nativepull
  not_initialized invalid_native_pull_frame : Error
  -- a plain error: a required argument is missing, or an argument was refused
  required refused : Error

pub data Result {ℓ} (A : Type ℓ) : Type ℓ where
  ok : A → Result A
  err : Error → Result A

abbrev pub Done : Type 0
Done = Result (Unit {0})

-- `if cond { return err }`
abbrev pub unless {ℓ} : {A : Type ℓ} → Bool → Error → Result A → Result A
unless true e k = err e
unless false e k = k

infixl 5 ◌>>=◌ ◌>>◌
-- the rest of a function after a call that may fail
abbrev pub ◌>>=◌ {ℓ ρ} :
    {X : Type ℓ} {Y : Type ρ} → (called : Result X) (rest : X → Result Y) → Result Y
ok x >>= rest = rest x
err reason >>= rest = err reason

-- the same, where the call returns an error alone
abbrev pub ◌>>◌ {ρ} : {Y : Type ρ} → (called : Done) (rest : Result Y) → Result Y
called >> rest = called >>= λ done. rest

-- a callee of a library, whose error text is dropped
abbrev pub from_option {ℓ} : {A : Type ℓ} → Error → Option A → Result A
from_option e none = err e
from_option e (some a) = ok a

-- `fmt.Errorf("%w: … %v", sentinel, err)`
abbrev pub rewrap {ℓ} : {A : Type ℓ} → Error → Result A → Result A
rewrap e (ok a) = ok a
rewrap e (err _) = err e

abbrev pub guard : Bool → Error → Done
guard true e = ok tt
guard false e = err e

-- A function that returned without an error got through each of its calls.
pub bind-eq-ok {ℓ ρ} :
    {X : Type ℓ} {Y : Type ρ} (called : Result X) (rest : X → Result Y) {y : Y}
    → (called >>= rest) ≡ ok y
    → (x : X) × (called ≡ ok x) × (rest x ≡ ok y)
bind-eq-ok (ok x) rest h = (x, refl, h)
bind-eq-ok (err reason) rest h = cc

pub then-eq-ok {ρ} :
    {Y : Type ρ} (called : Done) (rest : Result Y) {y : Y}
    → (called >> rest) ≡ ok y
    → (called ≡ ok tt) × (rest ≡ ok y)
then-eq-ok (ok tt) rest h = (refl, h)
then-eq-ok (err reason) rest h = cc

pub guard-eq-ok : (b : Bool) (e : Error) → guard b e ≡ ok tt → b ≡ true
guard-eq-ok true e h = refl
guard-eq-ok false e h = cc

pub rewrap-eq-ok {ℓ} :
    {A : Type ℓ} (e : Error) (m : Result A) {a : A} → rewrap e m ≡ ok a → m ≡ ok a
rewrap-eq-ok e (ok a) h = h
rewrap-eq-ok e (err _) h = cc

pub from_option-eq-ok {ℓ} :
    {A : Type ℓ} (e : Error) (o : Option A) {a : A} → from_option e o ≡ ok a → o ≡ some a
from_option-eq-ok e (some x) h = cc
from_option-eq-ok e none h = cc

pub Result-cases {ℓ} :
    {A : Type ℓ} (m : Result A) → ((a : A) × (m ≡ ok a)) ⊎ ((e : Error) × (m ≡ err e))
Result-cases (ok a) = inl (a, refl)
Result-cases (err e) = inr (e, refl)
