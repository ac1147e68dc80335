-- ===== src/Doc/Property/Op.antt =====
-- local-modules/@bayou/doc-common/{Property,PropertyOp}.js. A value is data that
-- `DataUtil.equalData()` compares: its equality is an `Eq` instance.
use bayou.Prelude.{
  ℕ, ◌≡◌, ◌↔◌, Bool, true, false, ◌&&◌, String, Result, ok, ◌>>=◌, Eq, ◌==◌, string_eq, arith,
}
use bayou.Syntax.{check_identifier}

pub record Property (V : Type 0) : Type 0 where
  pub name : String
  pub value : V

-- The constructor.
unfoldable pub make : {V : Type 0} → String → V → Result (Property V)
make name value = do checked ← check_identifier name; ok (record { name = checked; value = value })

pub data PropertyOp (V : Type 0) : Type 0 where
  delete : String → PropertyOp V
  set : Property V → PropertyOp V

unfoldable pub op_delete : {V : Type 0} → String → Result (PropertyOp V)
op_delete name = do checked ← check_identifier name; ok (delete checked)

unfoldable pub op_set : {V : Type 0} → String → V → Result (PropertyOp V)
unfolding make
op_set name value = do property ← make name value; ok (set property)

-- The name that an operation is about.
abbrev pub key : {V : Type 0} → PropertyOp V → String
key (delete name) = name
key (set p) = p.name

abbrev pub is_set : {V : Type 0} → PropertyOp V → Bool
is_set (set _) = true
is_set _ = false

abbrev pub rough_size : {V : Type 0} → PropertyOp V → ℕ
rough_size _ = 1

module _ {V : Type 0} ⦃v : Eq V⦄ where
  unfoldable pub equals : Property V → Property V → Bool
  equals p q = (p.name == q.name) && (p.value == q.value)

  pub equals_iff : (p q : Property V) → (equals p q ≡ true) ↔ (p ≡ q)
  unfolding equals
  equals_iff p q = ground (arith, string_eq.beq_iff p.name q.name, v.beq_iff p.value q.value)

  -- `BaseOp.equals()`: the names and the arguments of the payloads.
  unfoldable pub op_equals : PropertyOp V → PropertyOp V → Bool
  unfolding equals
  op_equals (delete a) (delete b) = a == b
  op_equals (set p) (set q) = equals p q
  op_equals _ _ = false

  pub op_equals_iff : (a b : PropertyOp V) → (op_equals a b ≡ true) ↔ (a ≡ b)
  unfolding op_equals
  op_equals_iff (delete a) (delete b) = ground (arith, string_eq.beq_iff a b)
  op_equals_iff (set p) (set q) = ground (arith, equals_iff p q)
  op_equals_iff (delete a) (set q) = ground arith
  op_equals_iff (set p) (delete b) = ground arith
