-- ===== src/Tests/Values.antt =====
-- An equality of what a part of a document stores, for properties whose values are numbers.
use bayou.Prelude.{
  ℕ, ◌≡◌, refl, sym, ◌∙◌, ap, ◌↔◌, Bool, true, false, ◌&&◌, Option, none, some, List, [], ◌∷◌,
  String, Eq, string_eq, nat_eq, arith,
}
use bayou.Prelude.Int.{pos, negsuc}
use bayou.Ot.Timestamp.{Timestamp}
use bayou.Doc.Property.Op.{PropertyOp, op_equals, op_equals_iff}
use bayou.DocServer.Part.{Value, change_value, number_value, snapshot_value, other_value}

module _ {A B : Type 0} ⦃a : Eq A⦄ ⦃b : Eq B⦄ where
  abbrev pub pair_beq : A × B → A × B → Bool
  pair_beq (x, y) (z, w) = a.beq x z && b.beq y w

  pub pair_beq_iff : (x y : A × B) → (pair_beq x y ≡ true) ↔ (x ≡ y)
  pair_beq_iff (x, y) (z, w) = ground (arith, a.beq_iff x z, b.beq_iff y w)

  instance abbrev pub pair_eq : Eq (A × B)
  pair_eq = record { beq = pair_beq; beq_iff = pair_beq_iff }

module _ {A : Type 0} ⦃a : Eq A⦄ where
  abbrev pub option_beq : Option A → Option A → Bool
  option_beq none none = true
  option_beq (some x) (some y) = a.beq x y
  option_beq _ _ = false

  pub option_beq_iff : (x y : Option A) → (option_beq x y ≡ true) ↔ (x ≡ y)
  option_beq_iff none none = ground arith
  option_beq_iff none (some y) = ground arith
  option_beq_iff (some x) none = ground arith
  option_beq_iff (some x) (some y) = ground (arith, a.beq_iff x y)

  instance abbrev pub option_eq : Eq (Option A)
  option_eq = record { beq = option_beq; beq_iff = option_beq_iff }

  abbrev pub list_beq : List A → List A → Bool
  list_beq [] [] = true
  list_beq (x ∷ xs) (y ∷ ys) = a.beq x y && list_beq xs ys
  list_beq _ _ = false

  pub list_beq_iff : (x y : List A) → (list_beq x y ≡ true) ↔ (x ≡ y)
  list_beq_iff [] [] = ground arith
  list_beq_iff [] (y ∷ ys) = ground arith
  list_beq_iff (x ∷ xs) [] = ground arith
  list_beq_iff (x ∷ xs) (y ∷ ys) = ground (arith, a.beq_iff x y, list_beq_iff xs ys)

  instance abbrev pub list_eq : Eq (List A)
  list_eq = record { beq = list_beq; beq_iff = list_beq_iff }

-- The equality of what one can code and decode.
module _ {A T : Type 0} ⦃t : Eq T⦄ (code : A → T) (read : T → A)
    (read-code : (x : A) → read (code x) ≡ x) where
  pub coded_beq_iff : (x y : A) → (t.beq (code x) (code y) ≡ true) ↔ (x ≡ y)
  coded_beq_iff x y = (
    λ h. sym (read-code x) ∙ ap read ((t.beq_iff (code x) (code y)).0 h) ∙ read-code y,
    λ h. (t.beq_iff (code x) (code y)).1 (ap code h),
  )

  abbrev pub coded_eq : Eq A
  coded_eq = record { beq = λ x y. t.beq (code x) (code y); beq_iff = coded_beq_iff }

instance abbrev pub op_eq : Eq (PropertyOp ℕ)
op_eq = record { beq = op_equals; beq_iff = op_equals_iff }

abbrev pub Coded : Type 0
Coded =
    Option (ℕ × (List (PropertyOp ℕ) × (Option (ℕ × ℕ) × Option String)))
    × (Option (Option ℕ × Option ℕ) × Option (ℕ × List (PropertyOp ℕ)))

abbrev pub times : Option Timestamp → Option (ℕ × ℕ)
times none = none
times (some t) = some (t.secs, t.usecs)

abbrev pub read_times : Option (ℕ × ℕ) → Option Timestamp
read_times none = none
read_times (some (secs, usecs)) = some (record { secs = secs; usecs = usecs })

abbrev pub code : Value (PropertyOp ℕ) → Coded
code (change_value ch) =
    (some (ch.rev_num, (ch.delta, (times ch.timestamp, ch.author_id))), (none, none))
code (number_value (pos n)) = (none, (some (some n, none), none))
code (number_value (negsuc n)) = (none, (some (none, some n), none))
code (snapshot_value s) = (none, (none, some (s.rev_num, s.contents)))
code other_value = (none, (none, none))

abbrev pub read : Coded → Value (PropertyOp ℕ)
read (some (n, (d, (t, a))), _) =
    change_value (record { rev_num = n; delta = d; timestamp = read_times t; author_id = a })
read (none, (some (some n, _), _)) = number_value (pos n)
read (none, (some (none, some n), _)) = number_value (negsuc n)
read (none, (some (none, none), _)) = other_value
read (none, (none, some (n, d))) = snapshot_value (record { rev_num = n; contents = d })
read (none, (none, none)) = other_value

read-times : (t : Option Timestamp) → read_times (times t) ≡ t
read-times none = refl
read-times (some t) = refl

pub read-code : (v : Value (PropertyOp ℕ)) → read (code v) ≡ v
read-code (change_value ch) = rw (read-times ch.timestamp) refl
read-code (number_value (pos n)) = refl
read-code (number_value (negsuc n)) = refl
read-code (snapshot_value s) = refl
read-code other_value = refl

instance abbrev pub value_eq : Eq (Value (PropertyOp ℕ))
value_eq = coded_eq code read read-code
