-- ===== src/FileStore/StoragePath/Index.antt =====
-- The index behind a path, in local-modules/@bayou/file-store-ot/StoragePath.js.
use Prim.Native.Char.{code}
use bayou.Prelude.{
  ℕ, ◌+◌, ◌-◌, ◌*◌, Bool, true, false, not, ◌&&◌, ◌||◌, Option, none, some, String, ◌==◌, nat_eq,
  Result, err, bad_value, ◌>>=◌, if◌then◌else◌,
}
use bayou.Prelude.Int.{ℤ, pos}
use bayou.Syntax.{is_digit}
use bayou.Typecheck.{integer, non_negative}
use bayou.FileStore.StoragePath.{check}

unfoldable pub all_digit : String → Bool
all_digit String.[] = true
all_digit (String.◌∷◌ c s) = is_digit (code c) && all_digit s

abbrev pub is_empty : String → Bool
is_empty String.[] = true
is_empty (String.◌∷◌ c s) = false

-- /^(0|[1-9][0-9]*)$/
unfoldable pub is_decimal : String → Bool
unfolding all_digit
is_decimal String.[] = false
is_decimal (String.◌∷◌ c s) =
    is_digit (code c) && all_digit s && (not (code c == b'0') || is_empty s)

-- `match(/[/](0|[1-9][0-9]*)$/)`: the group of the first match.
unfoldable pub match_index : String → Option String
unfolding is_decimal
match_index String.[] = none
match_index (String.◌∷◌ c s) =
    let rest = match_index s in if code c == b'/' && is_decimal s then some s else rest

-- The number that digits stand for, behind a value.
unfoldable pub value_from : ℕ → String → ℕ
value_from v String.[] = v
value_from v (String.◌∷◌ c s) = value_from (10 * v + (code c - b'0')) s

-- `parseInt()`, of digits.
unfoldable pub parse_int : String → ℤ
unfolding value_from
parse_int s = pos (value_from 0 s)

-- `TInt.nonNegative(parseInt(match[1]))`
unfoldable pub matched : Option String → Result ℤ
unfolding parse_int
matched none = err bad_value
matched (some s) = non_negative (integer (parse_int s))

unfoldable pub get_index : String → Result ℤ
unfolding match_index matched
get_index path = do checked ← check path; matched (match_index checked)
