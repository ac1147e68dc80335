-- ===== src/Typecheck.antt =====
-- The checks of integers: local-modules/@bayou/util-core/CoreTypecheck.js and
-- local-modules/@bayou/typecheck/TInt.js. A value is an integer or anything else.
use bayou.Prelude.{
  Bool, true, not, ◌&&◌, ◌||◌, Option, none, some, Result, ok, err, bad_value, ◌>>=◌, ◌>>◌, guard,
  if◌then◌else◌,
}
use bayou.Prelude.Int.{ℤ, pos, negsuc, ltb_ℤ, leb_ℤ}

pub data JsValue : Type 0 where
  integer : ℤ → JsValue
  other : JsValue

-- `Number.isSafeInteger()`
abbrev pub is_safe : ℤ → Bool
is_safe n = leb_ℤ (negsuc 9007199254740990) n && leb_ℤ n (pos 9007199254740991)

-- `checkInt(value)`
unfoldable pub check : JsValue → Result ℤ
check other = err bad_value
check (integer n) = if is_safe n then ok n else err bad_value

abbrev check_bound : Option JsValue → Result (Option ℤ)
check_bound none = ok none
check_bound (some v) = check v >>= λ n. ok (some n)

abbrev from : Option ℤ → ℤ → Bool
from none n = true
from (some m) n = leb_ℤ m n

abbrev below : Option ℤ → ℤ → Bool
below none n = true
below (some m) n = ltb_ℤ n m

-- `checkInt(value, minInc, maxExc)`
unfoldable pub check_int : JsValue → Option JsValue → Option JsValue → Result ℤ
unfolding check
check_int value min_inc max_exc = do
  lower ← check_bound min_inc
  upper ← check_bound max_exc
  n ← check value
  guard (from lower n && below upper n) bad_value
  ok n

unfoldable pub min : JsValue → JsValue → Result ℤ
unfolding check_int
min value min_inc = check_int value (some min_inc) none

unfoldable pub non_negative : JsValue → Result ℤ
unfolding check_int
non_negative value = check_int value (some (integer (pos 0))) none

unfoldable pub range : JsValue → JsValue → JsValue → Result ℤ
unfolding check_int
range value min_inc max_exc = check_int value (some min_inc) (some max_exc)

unfoldable pub max_inc : JsValue → JsValue → Result ℤ
unfolding check
max_inc value max = do n ← check value; m ← check max; guard (not (ltb_ℤ m n)) bad_value; ok n

unfoldable pub range_inc : JsValue → JsValue → JsValue → Result ℤ
unfolding check
range_inc value min_inc max = do
  n ← check value
  l ← check min_inc
  m ← check max
  guard (not (ltb_ℤ n l || ltb_ℤ m n)) bad_value
  ok n

unfoldable pub unsigned_byte : JsValue → Result ℤ
unfolding range_inc
unsigned_byte value = range_inc value (integer (pos 0)) (integer (pos 255))
