-- ===== src/FileStore/StoragePath/Decimals.antt =====
-- The text of an index behind a path: about local-modules/@bayou/file-store-ot/StoragePath.js.
use Prim.Native.Char.{Char, code}
use Prim.Native.String.{◌++◌}
use text.Mathlib.TextLemmas.{cons-append, nil-append, append_cancel_left}
use bayou.Prelude.{
  ℕ, zero, suc, ◌+◌, ◌*◌, ◌/◌, ◌%◌, ◌≤◌, ◌<◌, ◌≡◌, refl, sym, ◌∙◌, ap, Bool, true, false, not, ◌&&◌,
  some, String, nat_eq, ltb, ok, Bool-cases, inl, inr, arith,
}
use bayou.Prelude.Int.{pos}
use bayou.Syntax.{is_word}
use bayou.Typecheck
use bayou.Typecheck.{integer, non_negative, check_int}
use bayou.FileStore.StoragePath.{
  components, is_instance, check, digit, decimal_onto, decimal, indexed,
}
use bayou.FileStore.StoragePath.Index.{
  all_digit, is_empty, is_decimal, match_index, value_from, parse_int, matched, get_index,
}

-- The character of a digit.
digit_char : (k : ℕ) → k < 10 → (c : Char) × (digit k ≡ String.◌∷◌ c "") × (code c ≡ b'0' + k)
digit_char zero h = ("0", refl, refl)
digit_char (suc zero) h = ("1", refl, refl)
digit_char (suc (suc zero)) h = ("2", refl, refl)
digit_char (suc (suc (suc zero))) h = ("3", refl, refl)
digit_char (suc (suc (suc (suc zero)))) h = ("4", refl, refl)
digit_char (suc (suc (suc (suc (suc zero))))) h = ("5", refl, refl)
digit_char (suc (suc (suc (suc (suc (suc zero)))))) h = ("6", refl, refl)
digit_char (suc (suc (suc (suc (suc (suc (suc zero))))))) h = ("7", refl, refl)
digit_char (suc (suc (suc (suc (suc (suc (suc (suc zero)))))))) h = ("8", refl, refl)
digit_char (suc (suc (suc (suc (suc (suc (suc (suc (suc zero))))))))) h = ("9", refl, refl)
digit_char (suc (suc (suc (suc (suc (suc (suc (suc (suc (suc k)))))))))) h = absurd (omega arith)

-- A digit in front of a text is a character in front of it.
record Leads (k : ℕ) (s : String) : Type 0 where
  char : Char
  text : digit k ++ s ≡ String.◌∷◌ char s
  digit_code : code char ≡ b'0' + k

leads : (k : ℕ) (s : String) → k < 10 → Leads k s
leads k s h =
    let (c, e, d) = digit_char k h in
    record {
      char = c;
      text = ap (λ t. t ++ s) e ∙ cons-append c "" s ∙ ap (String.◌∷◌ c) (nil-append s);
      digit_code = d;
    }

-- What a digit in front of a text is to the reader of decimals.
value-digit :
    (k v : ℕ) (s : String) → k < 10 → value_from v (digit k ++ s) ≡ value_from (10 * v + k) s
unfolding value_from
value-digit k v s h =
    let l = leads k s h in rw l.text (ap (λ n. value_from n s) (omega (arith, l.digit_code)))

all_digit-digit :
    (k : ℕ) (s : String) → k < 10 → all_digit s ≡ true → all_digit (digit k ++ s) ≡ true
unfolding all_digit
all_digit-digit k s h d = let l = leads k s h in rw l.text (ground (arith, l.digit_code, d, h))

is_decimal-digit :
    (k : ℕ) (s : String) → k < 10 → 1 ≤ k → all_digit s ≡ true → is_decimal (digit k ++ s) ≡ true
unfolding is_decimal
is_decimal-digit k s h p d =
    let l = leads k s h in rw l.text (ground (arith, l.digit_code, d, h, p))

-- The loop of a number's digits makes decimals, of the same value.
record Digits (fuel n : ℕ) (tail : String) : Type 0 where
  value : value_from 0 (decimal_onto fuel n tail) ≡ value_from n tail
  digits : all_digit tail ≡ true → all_digit (decimal_onto fuel n tail) ≡ true
  decimal_text : all_digit tail ≡ true → 1 ≤ n → is_decimal (decimal_onto fuel n tail) ≡ true

decimal_onto-Digits : (fuel n : ℕ) (tail : String) → n < fuel → Digits fuel n tail
unfolding decimal_onto
decimal_onto-Digits zero n tail h = absurd (omega arith)
decimal_onto-Digits (suc fuel) n tail h =
    let text = digit (n % 10) ++ tail in
    elim (Bool-cases (ltb n 10)) [
      | inl p ↦
          let e : n % 10 ≡ n = ground (arith, p) in
          record {
            value = rw p (
                value-digit (n % 10) 0 tail (omega arith)
                ∙ ap (λ v. value_from v tail) (omega (arith, e)));
            digits = λ d. rw p (all_digit-digit (n % 10) tail (omega arith) d);
            decimal_text =
                λ d q. rw p (is_decimal-digit (n % 10) tail (omega arith) (omega (arith, e, q)) d);
          }
      | inr p ↦
          let d = decimal_onto-Digits fuel (n / 10) text (ground (arith, h, p)) in
          record {
            value = rw p (
                d.value
                ∙ value-digit (n % 10) (n / 10) tail (omega arith)
                ∙ ap (λ v. value_from v tail) (omega arith));
            digits = λ t. rw p (d.digits (all_digit-digit (n % 10) tail (omega arith) t));
            decimal_text = λ t q. rw p (
                d.decimal_text (all_digit-digit (n % 10) tail (omega arith) t) (ground (arith, p)));
          }
    ]

decimal-is_decimal : (n : ℕ) → is_decimal (decimal n) ≡ true
unfolding decimal is_decimal decimal_onto all_digit
decimal-is_decimal zero = refl
decimal-is_decimal (suc n) =
    (decimal_onto-Digits (suc (suc n)) (suc n) "" (omega arith)).decimal_text refl (omega arith)

pub value-decimal : (n : ℕ) → value_from 0 (decimal n) ≡ n
unfolding decimal value_from
value-decimal n = (decimal_onto-Digits (suc n) n "" (omega arith)).value

all_digit-decimal : (s : String) → is_decimal s ≡ true → all_digit s ≡ true
unfolding is_decimal all_digit
all_digit-decimal String.[] h = refl
all_digit-decimal (String.◌∷◌ c s) h = ground arith

-- Two numbers behind one path are the same when the paths are.
pub indexed-inj : (prefix : String) (m n : ℕ) → indexed prefix m ≡ indexed prefix n → m ≡ n
unfolding indexed
indexed-inj prefix m n e =
    let d = append_cancel_left "/" _ _ (append_cancel_left prefix _ _ e) in
    sym (value-decimal m) ∙ ap (value_from 0) d ∙ value-decimal n

-- A path with a component behind it.
pub components-append :
    (first : Bool) (p t : String)
    → components first p ≡ true
    → components true t ≡ true
    → components first (p ++ ("/" ++ t)) ≡ true
unfolding components
components-append first String.[] t h k =
    rw (nil-append ("/" ++ t), cons-append "/" "" t, nil-append t) (ground (arith, h, k))
components-append first (String.◌∷◌ c p) t h k =
    rw (cons-append c p ("/" ++ t))
      (ground (arith, h, components-append (not (is_word (code c))) p t, k))

digits-components :
    (first : Bool) (s : String)
    → all_digit s ≡ true
    → (first && is_empty s) ≡ false
    → components first s ≡ true
unfolding components all_digit
digits-components first String.[] h k = ground (arith, k)
digits-components first (String.◌∷◌ c s) h k = ground (arith, h, digits-components false s)

decimal-is_empty : (s : String) → is_decimal s ≡ true → is_empty s ≡ false
unfolding is_decimal
decimal-is_empty String.[] h = absurd (ground arith)
decimal-is_empty (String.◌∷◌ c s) h = refl

-- A path and a component make a path.
pub append-is_instance :
    (p t : String)
    → is_instance p ≡ true
    → components true t ≡ true
    → is_instance (p ++ ("/" ++ t)) ≡ true
unfolding is_instance
append-is_instance String.[] t h k = absurd (ground arith)
append-is_instance (String.◌∷◌ c p) t h k =
    rw (cons-append c p ("/" ++ t)) (ground (arith, h, components-append true p t, k))

pub indexed-is_instance :
    (p : String) (n : ℕ) → is_instance p ≡ true → is_instance (indexed p n) ≡ true
unfolding indexed
indexed-is_instance p n h = append-is_instance p (decimal n) h (
    digits-components true (decimal n) (all_digit-decimal (decimal n) (decimal-is_decimal n))
      (ap (λ b. true && b) (decimal-is_empty (decimal n) (decimal-is_decimal n))))

-- A text with a slash is no decimal.
slash-all_digit : (s t : String) → all_digit (s ++ ("/" ++ t)) ≡ false
unfolding all_digit
slash-all_digit String.[] t = rw (nil-append ("/" ++ t), cons-append "/" "" t) refl
slash-all_digit (String.◌∷◌ c s) t =
    rw (cons-append c s ("/" ++ t)) (ground (arith, slash-all_digit s t))

slash-is_decimal : (s t : String) → is_decimal (s ++ ("/" ++ t)) ≡ false
slash-is_decimal s t = elim (Bool-cases (is_decimal (s ++ ("/" ++ t)))) [
  | inl h ↦ absurd (ground (arith, all_digit-decimal (s ++ ("/" ++ t)) h, slash-all_digit s t))
  | inr h ↦ h
]

match-append : (s t : String) → is_decimal t ≡ true → match_index (s ++ ("/" ++ t)) ≡ some t
unfolding match_index
match-append String.[] t h = rw (nil-append ("/" ++ t), cons-append "/" "" t, nil-append t, h) refl
match-append (String.◌∷◌ c s) t h =
    rw (cons-append c s ("/" ++ t), slash-is_decimal s t) (ground (arith, match-append s t h))

-- The index of an indexed path is read as that number, where it is a safe integer.
pub get_index-indexed :
    (prefix : String) (n : ℕ)
    → is_instance prefix ≡ true
    → n ≤ 9007199254740991
    → get_index (indexed prefix n) ≡ ok (pos n)
unfolding get_index matched parse_int non_negative check_int Typecheck.check check indexed
get_index-indexed prefix n h b =
    rw
      (
        indexed-is_instance prefix n h,
        match-append prefix (decimal n) (decimal-is_decimal n),
        value-decimal n,
      )
      (ground (arith, b))
