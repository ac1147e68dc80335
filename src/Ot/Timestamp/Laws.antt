-- ===== src/Ot/Timestamp/Laws.antt =====
-- About local-modules/@bayou/ot-common/Timestamp.js.
use bayou.Prelude.{
  ℕ, ◌+◌, ◌*◌, ◌/◌, ◌%◌, ◌≤◌, ◌<◌, ◌≡◌, ◌↔◌, Bool, true, ◌&&◌, Result, ok, err, bad_value, ltb,
  arith, if◌then◌else◌,
}
use bayou.Prelude.Int.{ℤ, pos, negsuc, ◌+ℤ◌, ltb_ℤ, leb_ℤ, pos_part}
use bayou.Ot.Timestamp.{
  Timestamp, make, split_usecs, from_usec, add_usec, compare_to, Comparison, less, equal, greater,
  equals, min_secs, max_secs, usecs_per_sec,
}

pub record IsValid (t : Timestamp) : Type 0 where
  pub from : min_secs ≤ t.secs
  pub until : t.secs < max_secs
  pub part : t.usecs < usecs_per_sec

-- Microseconds since the epoch.
abbrev pub to_usec : Timestamp → ℕ
to_usec t = t.secs * usecs_per_sec + t.usecs

-- The instants that a timestamp can hold.
abbrev pub in_range : ℤ → Bool
in_range u = leb_ℤ (pos (min_secs * usecs_per_sec)) u && ltb_ℤ u (pos (max_secs * usecs_per_sec))

-- The timestamp of an instant, if there is one.
abbrev pub at_usec : ℤ → Result Timestamp
at_usec u =
    if in_range u
    then ok (record { secs = pos_part u / usecs_per_sec; usecs = pos_part u % usecs_per_sec })
    else err bad_value

-- Making a timestamp of microseconds gives the timestamp of that instant, and throws if that is out
-- of range.
pub from_usec-eq : (u : ℤ) → from_usec u ≡ at_usec u
unfolding from_usec split_usecs make
from_usec-eq (pos n) = ground arith
from_usec-eq (negsuc n) = ground arith

-- Adding microseconds to a valid timestamp, whatever their sign, gives the timestamp of the instant
-- that lies that far from its own, and throws if that is out of range.
pub add_usec-eq :
    (t : Timestamp) (d : ℤ) → IsValid t → add_usec t d ≡ at_usec (pos (to_usec t) +ℤ d)
unfolding add_usec split_usecs make
add_usec-eq t (pos n) v = ground arith
add_usec-eq t (negsuc n) v = ground arith

pub at_usec-IsValid : (u : ℤ) {t : Timestamp} → at_usec u ≡ ok t → IsValid t × (pos (to_usec t) ≡ u)
at_usec-IsValid (pos n) h = ground arith
at_usec-IsValid (negsuc n) h = ground arith

unfoldable pub order : ℕ → ℕ → Comparison
order a b = if ltb a b then less else if ltb b a then greater else equal

-- `compareTo()` orders two valid timestamps as their microseconds since the epoch.
pub compare_to-eq :
    (s t : Timestamp) → IsValid s → IsValid t → compare_to s t ≡ order (to_usec s) (to_usec t)
unfolding compare_to order
compare_to-eq s t v w = ground arith

-- `equals()` of two timestamps is true exactly when they are the same.
pub equals_iff : (s t : Timestamp) → (equals s t ≡ true) ↔ (s ≡ t)
unfolding equals compare_to
equals_iff s t = (λ h. ground arith, λ h. ground arith)
