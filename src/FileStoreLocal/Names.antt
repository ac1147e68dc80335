-- ===== src/FileStoreLocal/Names.antt =====
-- The names of the files that local-modules/@bayou/file-store-local/LocalFile.js keeps in its
-- directory. What a directory lists are names, without slashes.
use Prim.Native.Char.{Char, code}
use bayou.Prelude.{
  ℕ, zero, suc, ◌+◌, ◌-◌, ◌*◌, ◌/◌, ◌%◌, ◌≤◌, ◌<◌, ◌≡◌, refl, sym, ◌∙◌, ap, Bool, true, ◌&&◌, not,
  Option, none, some, List, [], ◌∷◌, length, String, ltb, leb, ◌==◌, nat_eq, if◌then◌else◌,
  Bool-cases, inl, inr, All, arith,
}
use bayou.Syntax.{is_digit}

-- The digits of a number in base 16, in front of others; each round leaves a smaller number.
unfoldable pub hex_onto : ℕ → ℕ → List ℕ → List ℕ
hex_onto zero n tail = tail
hex_onto (suc fuel) n tail =
    let longer = hex_onto fuel (n / 16) (n % 16 ∷ tail) in if ltb n 16 then n ∷ tail else longer

unfoldable pub zeros : ℕ → List ℕ → List ℕ
zeros zero digits = digits
zeros (suc n) digits = 0 ∷ zeros n digits

-- `revNum.toString(16).padStart(8, '0')`, as digits.
unfoldable pub padded : ℕ → List ℕ
unfolding hex_onto zeros
padded rev_num = let digits = hex_onto (suc rev_num) rev_num [] in zeros (8 - length digits) digits

abbrev hex_chars : List Char
hex_chars =
    "0" ∷ "1" ∷ "2" ∷ "3" ∷ "4" ∷ "5" ∷ "6" ∷ "7" ∷ "8" ∷ "9" ∷ "a" ∷ "b" ∷ "c" ∷ "d" ∷ "e" ∷ "f"
    ∷ []

unfoldable pub char_at : ℕ → List Char → Char
char_at n [] = "0"
char_at zero (c ∷ cs) = c
char_at (suc n) (c ∷ cs) = char_at n cs

unfoldable pub hex_text : List ℕ → String → String
hex_text [] tail = tail
hex_text (d ∷ digits) tail = String.◌∷◌ (char_at d hex_chars) (hex_text digits tail)

-- The name that `_fsPathFromRevNum()` puts into the directory.
unfoldable pub fs_path_from_rev_num : ℕ → String
unfolding padded hex_text char_at
fs_path_from_rev_num rev_num = hex_text (padded rev_num) ".blob"

-- `[0-9a-f]`, and its value.
unfoldable pub hex_value : Char → Option ℕ
hex_value c =
    if is_digit (code c)
    then some (code c - b'0')
    else if leb b'a' (code c) && leb (code c) b'f'
    then some (code c - 87)
    else none

-- `[^./]*$`
unfoldable pub is_extension : String → Bool
is_extension String.[] = true
is_extension (String.◌∷◌ c s) = not (code c == b'.') && not (code c == b'/') && is_extension s

-- What is left to match of `([0-9a-f]{8})\.[^./]*$`, and the value of the digits so far.
unfoldable pub match_from : ℕ → ℕ → String → Option ℕ
unfolding is_extension
match_from zero value String.[] = none
match_from zero value (String.◌∷◌ c s) =
    if code c == b'.' && is_extension s then some value else none
match_from (suc n) value String.[] = none
match_from (suc n) value (String.◌∷◌ c s) = elim (hex_value c) [
  | none ↦ none
  | some d ↦ match_from n (16 * value + d) s
]

unfoldable pub rev_num_from_fs_path : String → Option ℕ
unfolding match_from
rev_num_from_fs_path name = match_from 8 0 name

-- The number that digits stand for, behind a value.
value_from : ℕ → List ℕ → ℕ
value_from v [] = v
value_from v (d ∷ digits) = value_from (16 * v + d) digits

AreDigits : List ℕ → Type 0
AreDigits digits = All (λ d. d < 16) digits

-- The characters have the values from `n` on.
Matches : ℕ → List Char → Type 0
Matches n [] = Unit
Matches n (c ∷ cs) = (hex_value c ≡ some n) × Matches (suc n) cs

hex_value-char_at :
    (cs : List Char) (n d : ℕ)
    → Matches n cs
    → d < length cs
    → hex_value (char_at d cs) ≡ some (d + n)
unfolding char_at Matches
hex_value-char_at [] n d m h = absurd (omega arith)
hex_value-char_at (c ∷ cs) n zero (e, m) h = e ∙ ap (λ v. some v) (omega arith)
hex_value-char_at (c ∷ cs) n (suc d) (e, m) h =
    hex_value-char_at cs (suc n) d m (omega arith) ∙ ap (λ v. some v) (omega arith)

hex_chars-Matches : Matches 0 hex_chars
unfolding Matches hex_value
hex_chars-Matches = (
  refl,
  (
    refl,
    (
      refl,
      (
        refl,
        (
          refl,
          (
            refl,
            (refl, (refl, (refl, (refl, (refl, (refl, (refl, (refl, (refl, (refl, tt)))))))))),
          ),
        ),
      ),
    ),
  ),
)

hex_value-digit : (d : ℕ) → d < 16 → hex_value (char_at d hex_chars) ≡ some d
hex_value-digit d h =
    hex_value-char_at hex_chars 0 d hex_chars-Matches h ∙ ap (λ v. some v) (omega arith)

match-text :
    (digits : List ℕ) (v : ℕ)
    → AreDigits digits
    → match_from (length digits) v (hex_text digits ".blob") ≡ some (value_from v digits)
unfolding match_from hex_text value_from AreDigits
match-text [] v h = refl
match-text (d ∷ digits) v (p, h) =
    rw (match_from, hex_value-digit d p) (match-text digits (16 * v + d) h)

hex_onto-value :
    (fuel n : ℕ) (tail : List ℕ)
    → n < fuel
    → value_from 0 (hex_onto fuel n tail) ≡ value_from n tail
unfolding hex_onto value_from
hex_onto-value zero n tail h = absurd (omega arith)
hex_onto-value (suc fuel) n tail h = elim (Bool-cases (ltb n 16)) [
  | inl p ↦ rw p (ap (λ v. value_from v tail) (omega arith))
  | inr p ↦
      let e = hex_onto-value fuel (n / 16) (n % 16 ∷ tail) (ground (arith, h, p)) in
      rw p (e ∙ ap (λ v. value_from v tail) (omega arith))
]

hex_onto-digits : (fuel n : ℕ) (tail : List ℕ) → AreDigits tail → AreDigits (hex_onto fuel n tail)
unfolding hex_onto AreDigits
hex_onto-digits zero n tail h = h
hex_onto-digits (suc fuel) n tail h = elim (Bool-cases (ltb n 16)) [
  | inl p ↦ rw p (ground (arith, p), h)
  | inr p ↦ rw p (hex_onto-digits fuel (n / 16) (n % 16 ∷ tail) (omega arith, h))
]

-- `16 ^ k`
power : ℕ → ℕ
power zero = 1
power (suc k) = 16 * power k

hex_onto-length :
    (fuel n k : ℕ) (tail : List ℕ)
    → n < power (suc k)
    → length (hex_onto fuel n tail) ≤ suc k + length tail
unfolding hex_onto power
hex_onto-length zero n k tail h = omega arith
hex_onto-length (suc fuel) n zero tail h =
    let p : ltb n 16 ≡ true = ground (arith, h) in rw p (omega arith)
hex_onto-length (suc fuel) n (suc k) tail h = elim (Bool-cases (ltb n 16)) [
  | inl p ↦ rw p (omega arith)
  | inr p ↦
      let e = hex_onto-length fuel (n / 16) k (n % 16 ∷ tail) (omega (arith, h)) in
      rw p (omega (arith, e))
]

zeros-value : (n : ℕ) (digits : List ℕ) → value_from 0 (zeros n digits) ≡ value_from 0 digits
unfolding zeros value_from
zeros-value zero digits = refl
zeros-value (suc n) digits = zeros-value n digits

zeros-digits : (n : ℕ) (digits : List ℕ) → AreDigits digits → AreDigits (zeros n digits)
unfolding zeros AreDigits
zeros-digits zero digits h = h
zeros-digits (suc n) digits h = (omega arith, zeros-digits n digits h)

zeros-length : (n : ℕ) (digits : List ℕ) → length (zeros n digits) ≡ n + length digits
unfolding zeros
zeros-length zero digits = omega arith
zeros-length (suc n) digits = omega (arith, zeros-length n digits)

-- The name of the file for a revision number of up to eight digits in base 16 is read as that number.
pub rev_num-fs_path :
    (n : ℕ) → n < 4294967296 → rev_num_from_fs_path (fs_path_from_rev_num n) ≡ some n
unfolding rev_num_from_fs_path fs_path_from_rev_num padded value_from AreDigits power
rev_num-fs_path n h =
    let digits = hex_onto (suc n) n [] in
    let b = hex_onto-length (suc n) n 7 [] (omega (arith, h)) in
    let z = zeros (8 - length digits) digits in
    let e : length z ≡ 8 = omega (arith, zeros-length (8 - length digits) digits, b) in
    ap (λ k. match_from k 0 (hex_text z ".blob")) (sym e)
    ∙ match-text z 0 (zeros-digits (8 - length digits) digits (hex_onto-digits (suc n) n [] tt))
    ∙ ap (λ v. some v)
        (zeros-value (8 - length digits) digits ∙ hex_onto-value (suc n) n [] (omega arith))
