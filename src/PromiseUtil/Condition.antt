-- ===== src/PromiseUtil/Condition.antt =====
-- local-modules/@bayou/promise-util/Condition.js. A promise is the number of its creation; what
-- has been resolved is a list of such numbers.
pub mod Laws
use bayou.Prelude.{
  ℕ, suc, ◌+◌, ◌≡◌, Bool, true, false, not, Option, none, some, List, [], ◌∷◌, if◌then◌else◌,
}

-- `_trigger[idx]` and `_became[idx]` are set and cleared together, so one field holds both.
pub record Condition : Type 0 where
  pub value : Bool
  pub became_false : Option ℕ
  pub became_true : Option ℕ
  -- The next promise's number, and the promises that were resolved, the latest first.
  pub next : ℕ
  pub resolved : List ℕ

abbrev pub make : Bool → Condition
make initial = record {
  value = initial;
  became_false = none;
  became_true = none;
  next = 0;
  resolved = [];
}

-- `this._became[idx]`
abbrev pub became : Bool → Condition → Option ℕ
became true c = c.became_true
became false c = c.became_false

abbrev pub resolve : Option ℕ → List ℕ → List ℕ
resolve none done = done
resolve (some p) done = p ∷ done

abbrev changed : Bool → Condition → Condition
changed true c = record c {
  value = true;
  became_true = none;
  resolved = resolve c.became_true c.resolved;
}
changed false c = record c {
  value = false;
  became_false = none;
  resolved = resolve c.became_false c.resolved;
}

abbrev same_value : Bool → Bool → Bool
same_value true b = b
same_value false b = not b

-- The setter of `value`.
unfoldable pub set_value : Bool → Condition → Condition
set_value value c = if same_value value c.value then c else changed value c

unfoldable pub on_off : Condition → Condition
unfolding set_value
on_off c = set_value false (set_value true c)

-- What `_whenX()` gives: it has happened, or a promise.
pub data Wait : Type 0 where
  now : Wait
  later : ℕ → Wait

abbrev waiting : Bool → Condition → Condition × Wait
waiting true c = elim c.became_true [
  | some p ↦ (c, later p)
  | none ↦ (record c { became_true = some c.next; next = c.next + 1 }, later c.next)
]
waiting false c = elim c.became_false [
  | some p ↦ (c, later p)
  | none ↦ (record c { became_false = some c.next; next = c.next + 1 }, later c.next)
]

unfoldable pub when_x : Bool → Condition → Condition × Wait
when_x value c = if same_value value c.value then (c, now) else waiting value c
