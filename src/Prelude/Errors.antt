-- ===== src/Prelude/Errors.antt =====
-- What a call that may throw returns. The cases of `Failure` are the makers of util-core's `Errors`
-- that the modelled code calls, `check_failed` one of file-store-ot's, `type_error` is the language's own, for a field of `undefined`, and
-- `no_fuel` says that a bounded loop of the model ran out of rounds, which no call of it does.
use mathlib.Core.Bool.{Bool, true, false}

-- The errors that the checks of a file's snapshot throw.
pub data CheckFailure : Type 0 where
  path_hash_mismatch path_not_absent path_not_present : CheckFailure

pub data Failure : Type 0 where
  bad_use bad_value bad_data wtf type_error file_not_found revision_not_available timed_out
        no_fuel :
      Failure
  check_failed : CheckFailure → Failure

pub data Result {ℓ} (T : Type ℓ) : Type ℓ where
  err : Failure → Result T
  ok : T → Result T

-- `if (!test) throw failure`
abbrev pub guard : Bool → Failure → Result (Unit {0})
guard false failure = err failure
guard true _ = ok tt

infixl 5 ◌>>=◌ ◌>>◌
abbrev pub ◌>>=◌ {ℓ κ} : {T : Type ℓ} {U : Type κ} → Result T → (T → Result U) → Result U
err failure >>= next = err failure
ok value >>= next = next value

abbrev pub ◌>>◌ {ℓ} : {U : Type ℓ} → Result (Unit {0}) → Result U → Result U
checked >> next = checked >>= λ _. next
