-- ===== src/Tests/Numbers.antt =====
-- local-modules/@bayou/ot-common/{Timestamp,RevisionNumber}.js at concrete numbers.
use bayou.Prelude.{◌≡◌, refl, ok, arith}
use bayou.Prelude.Int.{pos, negsuc, ◌+ℤ◌}
use bayou.Typecheck
use bayou.Typecheck.{integer, is_safe}
use bayou.Ot.RevisionNumber.{min}
use bayou.Ot.Timestamp.{Timestamp, add_usec}
use bayou.Ot.Timestamp.Laws.{IsValid, to_usec, at_usec, add_usec-eq}

abbrev early : Timestamp
early = record { secs = 1500000000; usecs = 250000 }

abbrev late : Timestamp
late = record { secs = 1500000001; usecs = 0 }

early-IsValid : IsValid early
early-IsValid = record { from = omega arith; until = omega arith; part = omega arith }

late-IsValid : IsValid late
late-IsValid = record { from = omega arith; until = omega arith; part = omega arith }

add_usec-eq_example :
    add_usec early (negsuc 299999) ≡ at_usec (pos (to_usec early) +ℤ negsuc 299999)
add_usec-eq_example = add_usec-eq early (negsuc 299999) early-IsValid

-- A negative value passes where the bound is negative.
min_negative : min (integer (negsuc 4)) (integer (negsuc 9)) ≡ ok (negsuc 4)
unfolding min Typecheck.min Typecheck.check_int Typecheck.check
min_negative = refl
