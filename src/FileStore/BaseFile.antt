-- ===== src/FileStore/BaseFile.antt =====
-- local-modules/@bayou/file-store/BaseFile.js, over what a subclass implements. A call takes the
-- state of the file, and gives its result and the next state; no call times out. A revision number
-- is at most the length of an array, which is a safe integer.
use bayou.Prelude.{
  ℕ, ◌≡◌, ap, Bool, true, false, Option, none, some, Failure, Result, ok, err, bad_value,
  revision_not_available, leb, if◌then◌else◌,
}
use bayou.Prelude.Int.{ℤ, pos, negsuc}
use bayou.Ot.Change.{Change}
use bayou.Ot.Snapshot.{Snapshot}

abbrev pub Call : Type 0 → Type 0 → Type 0
Call S A = S → Result A × S

abbrev pub continue : {S A B : Type 0} → Result A × S → (A → Call S B) → Result B × S
continue (ok value, t) next = next value t
continue (err failure, t) next = (err failure, t)

infixl 5 ◌>>=◌ ◌>>◌
abbrev pub ◌>>=◌ : {S A B : Type 0} → Call S A → (A → Call S B) → Call S B
call >>= next = λ s. continue (call s) next

abbrev pub ◌>>◌ : {S B : Type 0} → Call S (Unit {0}) → Call S B → Call S B
checked >> next = λ s. continue (checked s) (λ _. next)

-- A chain goes on behind a call that did not throw.
pub then-ok :
    {S B : Type 0} (call : Call S (Unit {0})) (next : Call S B) (s t : S)
    → call s ≡ (ok tt, t)
    → (call >> next) s ≡ next t
then-ok call next s t e = ap (λ r. continue r (λ _. next)) e

abbrev pub return : {S A : Type 0} → A → Call S A
return value s = (ok value, s)

abbrev pub throw : {S A : Type 0} → Failure → Call S A
throw failure s = (err failure, s)

abbrev pub check_that : {S : Type 0} → Bool → Failure → Call S (Unit {0})
check_that false failure = throw failure
check_that true _ = return tt

abbrev at_least : Option ℕ → ℕ → ℕ
at_least none value = value
at_least (some least) value = if leb least value then value else least

abbrev at_most : Option ℕ → ℕ → ℕ
at_most none value = value
at_most (some most) value = if leb value most then value else most

-- `clampTimeoutMsec()`, with the least and the most that the subclass allows.
unfoldable pub clamp_timeout_msec : Option ℕ → Option ℕ → Option ℕ → ℕ
clamp_timeout_msec min_msec none none = 86400000
clamp_timeout_msec min_msec (some most) none = most
clamp_timeout_msec min_msec max_msec (some value) = at_most max_msec (at_least min_msec value)

-- The methods `_impl_…()`.
pub record FileImpl (Op S : Type 0) : Type 0 where
  pub impl_append_change : Change Op → Call S Bool
  pub impl_current_rev_num : Call S ℤ
  pub impl_get_change : ℕ → Call S (Option (Change Op))
  pub impl_get_snapshot : ℕ → Call S (Option (Snapshot Op))

-- `RevisionNumber.check()`
abbrev pub check_rev_num : {S : Type 0} → ℤ → Call S ℕ
check_rev_num (pos n) = return n
check_rev_num (negsuc _) = throw bad_value

-- `null` is no revision.
abbrev pub or_not_available : {S A : Type 0} → Option A → Call S A
or_not_available (some value) = return value
or_not_available none = throw revision_not_available

module _ {Op S : Type 0} (file : FileImpl Op S) where
  unfoldable pub append_change : Change Op → Call S Bool
  append_change ch = file.impl_append_change ch

  unfoldable pub current_rev_num : Call S ℕ
  current_rev_num = file.impl_current_rev_num >>= check_rev_num

  unfoldable pub get_change : ℕ → Call S (Change Op)
  get_change rev_num = do
    current ← current_rev_num
    check_that (leb rev_num current) bad_value
    found ← file.impl_get_change rev_num
    or_not_available found

  -- The revision to get: the current one for `null`.
  abbrev pub rev_num_or_current : Option ℕ → ℕ → Call S ℕ
  rev_num_or_current none current = return current
  rev_num_or_current (some rev_num) current =
      check_that (leb rev_num current) bad_value >> return rev_num

  unfoldable pub get_snapshot : Option ℕ → Call S (Snapshot Op)
  get_snapshot rev_num = do
    current ← current_rev_num
    checked ← rev_num_or_current rev_num current
    found ← file.impl_get_snapshot checked
    or_not_available found
