-- ===== src/Ot/RevisionNumber.antt =====
-- local-modules/@bayou/ot-common/RevisionNumber.js
use bayou.Prelude.{Result, ok, err, bad_value}
use bayou.Prelude.Int.{ℤ, pos, negsuc}
use bayou.Typecheck
use bayou.Typecheck.{JsValue, integer, other, is_safe, check_int, range_inc}

-- `try { return r; } catch (e) { throw Errors.badValue(…); }`
abbrev refine : Result ℤ → Result ℤ
refine (ok n) = ok n
refine (err _) = err bad_value

unfoldable pub check : JsValue → Result ℤ
check value = refine (Typecheck.non_negative value)

unfoldable pub max_exc : JsValue → JsValue → Result ℤ
max_exc value max = refine (Typecheck.range value (integer (pos 0)) max)

unfoldable pub max_inc : JsValue → JsValue → Result ℤ
max_inc value max = refine (Typecheck.range_inc value (integer (pos 0)) max)

unfoldable pub min : JsValue → JsValue → Result ℤ
min value min_inc = refine (Typecheck.min value min_inc)

unfoldable pub or_neg1 : JsValue → Result ℤ
or_neg1 value = refine (Typecheck.min value (integer (negsuc 0)))
