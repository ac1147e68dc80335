-- ===== src/Doc/Caret.antt =====
-- local-modules/@bayou/doc-common/{Caret,CaretId}.js. A field is a name with a value of the type that
-- `CARET_FIELDS` has for it; the syntax of a color is left out. Every caret has all six fields.
pub mod Op
pub mod Fields
pub mod Difference
pub mod Delta
pub mod Snapshot
use Prim.Native.Char.{code}
use bayou.Prelude.{
  ℕ, ◌≡◌, Bool, true, false, ◌&&◌, ◌||◌, ◌-◌, List, [], ◌∷◌, String, string_eq, nat_eq, leb, ◌==◌,
  Result, ok, err, bad_value, if◌then◌else◌,
}
use bayou.Syntax.{is_digit, is_lower}
use bayou.Ot.Timestamp
use bayou.Ot.Timestamp.{Timestamp}

pub data Field : Type 0 where
  last_active : Timestamp → Field
  rev_num : ℕ → Field
  index : ℕ → Field
  length : ℕ → Field
  color : String → Field
  author_id : String → Field

-- The name of a field.
unfoldable pub key : Field → String
key (last_active _) = "lastActive"
key (rev_num _) = "revNum"
key (index _) = "index"
key (length _) = "length"
key (color _) = "color"
key (author_id _) = "authorId"

pub record Caret : Type 0 where
  pub id : String
  pub last_active : Timestamp
  pub rev_num : ℕ
  pub index : ℕ
  pub length : ℕ
  pub color : String
  pub author_id : String

-- The fields in the order of the map.
unfoldable pub fields : Caret → List Field
fields c =
    last_active c.last_active
    ∷ rev_num c.rev_num
    ∷ index c.index
    ∷ length c.length
    ∷ color c.color
    ∷ author_id c.author_id
    ∷ []

-- `new Map(idOrBase._fields)`, and then `set(k, v)`.
unfoldable pub set_field : Field → Caret → Caret
set_field (last_active v) c = record c { last_active = v }
set_field (rev_num v) c = record c { rev_num = v }
set_field (index v) c = record c { index = v }
set_field (length v) c = record c { length = v }
set_field (color v) c = record c { color = v }
set_field (author_id v) c = record c { author_id = v }

-- Five of `[0-9a-z]`, or as many as are left.
unfoldable pub id_chars : ℕ → String → Bool
id_chars n String.[] = n == 0
id_chars n (String.◌∷◌ c s) =
    let rest = id_chars (n - 1) s in leb 1 n && (is_digit (code c) || is_lower (code c)) && rest

-- `CARET_ID_REGEX`
unfoldable pub is_id : String → Bool
unfolding id_chars
is_id (String.◌∷◌ a (String.◌∷◌ b (String.◌∷◌ c s))) =
    code a == b'c' && code b == b'r' && code c == b'-' && id_chars 5 s
is_id _ = false

unfoldable pub check_id : String → Result String
check_id s = if is_id s then ok s else err bad_value

-- `_equalFields(v, fields.get(k))`, for a field and the field of its name in a caret.
unfoldable pub same_field : Field → Caret → Bool
same_field (last_active v) c = Timestamp.equals v c.last_active
same_field (rev_num v) c = v == c.rev_num
same_field (index v) c = v == c.index
same_field (length v) c = v == c.length
same_field (color v) c = v == c.color
same_field (author_id v) c = v == c.author_id

-- The loop of `equals()`.
unfoldable pub all_same : List Field → Caret → Bool
unfolding same_field
all_same [] c = true
all_same (f ∷ fs) c = let rest = all_same fs c in if same_field f c then rest else false

unfoldable pub equals : Caret → Caret → Bool
unfolding all_same fields
equals c other = if c.id == other.id then all_same (fields other) c else false
