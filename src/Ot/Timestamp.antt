-- ===== src/Ot/Timestamp.antt =====
-- local-modules/@bayou/ot-common/Timestamp.js. A JavaScript integer is a ℤ: every value that the
-- checks let through lies far below 2 ^ 53, so no sum is rounded.
pub mod Laws
use bayou.Prelude.{
  ℕ, suc, ◌+◌, ◌-◌, ◌*◌, ◌/◌, ◌%◌, ◌≡◌, Bool, true, false, ◌&&◌, Option, none, some, Result, ok,
  err, bad_value, ◌>>=◌, ltb, leb, ◌==◌, nat_eq, if◌then◌else◌,
}
use bayou.Prelude.Int.{ℤ, pos, negsuc, ◌+ℤ◌, ltb_ℤ, leb_ℤ, sub_ℕ}

abbrev pub min_secs : ℕ
min_secs = 1010000000

abbrev pub max_secs : ℕ
max_secs = 2530000000

abbrev pub usecs_per_sec : ℕ
usecs_per_sec = 1000000

pub record Timestamp : Type 0 where
  pub secs : ℕ
  pub usecs : ℕ

-- The constructor, with its two range checks.
unfoldable pub make : ℤ → ℤ → Result Timestamp
make (pos secs) (pos usecs) =
    if leb min_secs secs && ltb secs max_secs && ltb usecs usecs_per_sec
    then ok (record { secs = secs; usecs = usecs })
    else err bad_value
make _ _ = err bad_value

abbrev pub max_value : Result Timestamp
max_value = make (pos (max_secs - 1)) (pos (usecs_per_sec - 1))

abbrev pub min_value : Result Timestamp
min_value = make (pos min_secs) (pos 0)

-- `Math.floor(n / 1000000)`, which rounds down, and what is left.
unfoldable pub split_usecs : ℤ → ℤ × ℕ
split_usecs (pos n) = (pos (n / usecs_per_sec), n % usecs_per_sec)
split_usecs (negsuc n) = (negsuc (n / usecs_per_sec), usecs_per_sec - 1 - n % usecs_per_sec)

unfoldable pub from_usec : ℤ → Result Timestamp
from_usec usec = let (secs, usecs) = split_usecs usec in make secs (pos usecs)

-- `msec * 1000`
abbrev times_1000 : ℤ → ℤ
times_1000 (pos n) = pos (n * 1000)
times_1000 (negsuc n) = negsuc (n * 1000 + 999)

unfoldable pub from_msec : ℤ → Result Timestamp
from_msec msec = from_usec (times_1000 msec)

unfoldable pub add_usec : Timestamp → ℤ → Result Timestamp
add_usec t add =
    let (secs, usecs) = split_usecs add in
    let total = usecs + t.usecs in
    if leb usecs_per_sec total
    then make (secs +ℤ pos t.secs +ℤ pos 1) (pos (total - usecs_per_sec))
    else make (secs +ℤ pos t.secs) (pos total)

unfoldable pub add_msec : Timestamp → ℤ → Result Timestamp
add_msec t add = add_usec t (times_1000 add)

pub data Comparison : Type 0 where
  less equal greater : Comparison

unfoldable pub compare_to : Timestamp → Timestamp → Comparison
compare_to t other =
    if t.secs == other.secs
    then (if t.usecs == other.usecs
        then equal
        else if ltb t.usecs other.usecs
        then less
        else greater)
    else if ltb t.secs other.secs
    then less
    else greater

unfoldable pub equals : Timestamp → Timestamp → Bool
equals t other = elim (compare_to t other) [ equal ↦ true | _ ↦ false ]
