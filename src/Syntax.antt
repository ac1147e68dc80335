-- ===== src/Syntax.antt =====
-- The regular expressions of local-modules/@bayou/util-core/CoreTypecheck.js, over the characters
-- of a text.
use Prim.Native.Char.{code}
use bayou.Prelude.{
  Bool, true, false, not, ◌&&◌, ◌||◌, String, ℕ, leb, ◌==◌, nat_eq, Result, ok, err, bad_value,
  if◌then◌else◌,
}

abbrev pub is_digit : ℕ → Bool
is_digit c = leb b'0' c && leb c b'9'

abbrev pub is_lower : ℕ → Bool
is_lower c = leb b'a' c && leb c b'z'

abbrev pub is_upper : ℕ → Bool
is_upper c = leb b'A' c && leb c b'Z'

-- `[a-zA-Z0-9_]`
abbrev pub is_word : ℕ → Bool
is_word c = is_lower c || is_upper c || is_digit c || c == b'_'

unfoldable pub all_word : String → Bool
all_word String.[] = true
all_word (String.◌∷◌ c s) = if is_word (code c) then all_word s else false

-- /^[a-zA-Z_][a-zA-Z0-9_]*$/
unfoldable pub is_identifier : String → Bool
unfolding all_word
is_identifier String.[] = false
is_identifier (String.◌∷◌ c s) = is_word (code c) && not (is_digit (code c)) && all_word s

-- `TString.identifier()`, which is `CoreTypecheck.checkIdentifier()`.
unfoldable pub check_identifier : String → Result String
unfolding is_identifier
check_identifier s = if is_identifier s then ok s else err bad_value
