-- ===== src/FileStore/StoragePath.antt =====
-- local-modules/@bayou/file-store-ot/StoragePath.js
pub mod Parts
pub mod Index
pub mod Decimals
pub mod Join
use Prim.Native.Char.{code}
use Prim.Native.String.{◌++◌}
use text.Mathlib.Text.{starts_with}
use bayou.Prelude.{
  ℕ, zero, suc, ◌/◌, ◌%◌, String, Bool, true, false, not, ◌&&◌, ◌||◌, ltb, ◌==◌, nat_eq, string_eq,
  Result, ok, err, bad_value, ◌>>=◌, if◌then◌else◌,
}
use bayou.Syntax.{is_word, all_word}

-- What remains of /^([/][a-zA-Z0-9_]+)+$/ behind a slash (`first`) or within a component.
unfoldable pub components : Bool → String → Bool
components first String.[] = not first
components first (String.◌∷◌ c s) =
    let word = is_word (code c) in
    let rest = components (not word) s in (word || (code c == b'/' && not first)) && rest

-- `PATH_REGEX`
unfoldable pub is_instance : String → Bool
unfolding components
is_instance String.[] = false
is_instance (String.◌∷◌ c s) = code c == b'/' && components true s

unfoldable pub check : String → Result String
check path = if is_instance path then ok path else err bad_value

-- `COMPONENT_REGEX`, on a text that is not empty.
unfoldable pub check_component : String → Result String
unfolding all_word
check_component String.[] = err bad_value
check_component (String.◌∷◌ c s) =
    if is_word (code c) && all_word s then ok (String.◌∷◌ c s) else err bad_value

unfoldable pub is_prefix : String → String → Result Bool
unfolding check
is_prefix prefix path = do p ← check prefix; q ← check path; ok (starts_with q (p ++ "/"))

unfoldable pub is_prefix_or_same : String → String → Result Bool
unfolding is_prefix
is_prefix_or_same prefix path = do below ← is_prefix prefix path; ok (below || path == prefix)

-- The text of a number below ten.
abbrev pub digit : ℕ → String
digit zero = "0"
digit (suc zero) = "1"
digit (suc (suc zero)) = "2"
digit (suc (suc (suc zero))) = "3"
digit (suc (suc (suc (suc zero)))) = "4"
digit (suc (suc (suc (suc (suc zero))))) = "5"
digit (suc (suc (suc (suc (suc (suc zero)))))) = "6"
digit (suc (suc (suc (suc (suc (suc (suc zero))))))) = "7"
digit (suc (suc (suc (suc (suc (suc (suc (suc zero)))))))) = "8"
digit _ = "9"

-- The decimal text of a number, in front of `tail`; each round leaves a smaller number.
unfoldable pub decimal_onto : ℕ → ℕ → String → String
decimal_onto zero n tail = tail
decimal_onto (suc fuel) n tail =
    let text = digit (n % 10) ++ tail in
    let longer = decimal_onto fuel (n / 10) text in if ltb n 10 then text else longer

-- `${n}`
unfoldable pub decimal : ℕ → String
unfolding decimal_onto
decimal n = decimal_onto (suc n) n ""

-- `${prefix}/${n}`
unfoldable pub indexed : String → ℕ → String
unfolding decimal
indexed prefix n = prefix ++ "/" ++ decimal n
