-- ===== src/Ot/Delta.antt =====
-- local-modules/@bayou/ot-common/BaseDelta.js. A delta is its list of operations. What a subclass
-- overrides is a `DeltaClass`, and what the base class relies on is `IsDeltaClass`.
pub mod Laws
use bayou.Prelude.{
  ℕ, ◌+◌, ◌*◌, ◌≡◌, Bool, true, false, not, ◌&&◌, Option, none, some, List, [], ◌∷◌, Result, ok,
  err, bad_use, wtf, ◌>>=◌, ◌>>◌, guard, length, ◌==◌, nat_eq, if◌then◌else◌,
}

abbrev pub Delta : Type 0 → Type 0
Delta Op = List Op

-- The methods that a subclass of `BaseDelta` and its operations' class provide.
pub record DeltaClass (Op : Type 0) : Type 0 where
  pub impl_compose : Delta Op → Delta Op → Bool → Result (Delta Op)
  pub impl_compose_all : Delta Op → List (Delta Op) → Bool → Result (Delta Op)
  pub impl_is_document : Delta Op → Bool
  pub op_equals : Op → Op → Bool
  pub op_rough_size : Op → ℕ

module _ {Op : Type 0} where
  -- `EMPTY`
  abbrev pub empty : Delta Op
  empty = []

  unfoldable pub is_empty : Delta Op → Bool
  is_empty [] = true
  is_empty (_ ∷ _) = false

module _ {Op : Type 0} (c : DeltaClass Op) where
  pub is_document : Delta Op → Bool
  is_document d = c.impl_is_document d

  rough_size_from : ℕ → Delta Op → ℕ
  rough_size_from total [] = total
  rough_size_from total (op ∷ ops) = rough_size_from (total + c.op_rough_size op) ops

  pub rough_size : Delta Op → ℕ
  unfolding rough_size_from
  rough_size ops = rough_size_from (length ops * 8) ops

  -- The loop of `equals`, after the test on the lengths.
  ops_equal : Delta Op → Delta Op → Bool
  ops_equal (a ∷ as') (b ∷ bs) = if c.op_equals a b then ops_equal as' bs else false
  ops_equal _ _ = true

  unfoldable pub equals : Delta Op → Delta Op → Bool
  unfolding ops_equal
  equals a b = if length a == length b then ops_equal a b else false

  unfoldable pub check_result : Delta Op → Bool → Result (Delta Op)
  check_result r want_document =
      if want_document && not (c.impl_is_document r) then err wtf else ok r

  unfoldable pub compose_all : Delta Op → List (Delta Op) → Bool → Result (Delta Op)
  unfolding check_result
  compose_all d [] want_document =
      if want_document && not (c.impl_is_document d) then err bad_use else ok d
  compose_all d (e ∷ []) want_document =
      if want_document && not (c.impl_is_document d)
      then err bad_use
      else (c.impl_compose d e want_document >>= λ r. check_result r want_document)
  compose_all d es want_document =
      if want_document && not (c.impl_is_document d)
      then err bad_use
      else (c.impl_compose_all d es want_document >>= λ r. check_result r want_document)

  unfoldable pub compose : Delta Op → Delta Op → Bool → Result (Delta Op)
  unfolding compose_all
  compose d e want_document = compose_all d (e ∷ []) want_document

-- `BaseDelta._impl_composeAll`, which a subclass may override: each step's result but the last is
-- checked before the next step.
module _ {Op : Type 0} (impl_compose : Delta Op → Delta Op → Bool → Result (Delta Op))
    (impl_is_document : Delta Op → Bool) where
  check_step : Delta Op → Bool → Result (Delta Op)
  check_step r want_document = if want_document && not (impl_is_document r) then err wtf else ok r

  compose_steps : Delta Op → List (Delta Op) → Bool → Result (Delta Op)
  unfolding check_step
  compose_steps r [] want_document = ok r
  compose_steps r (d ∷ ds) want_document = do
    checked ← check_step r want_document
    next ← impl_compose checked d want_document
    compose_steps next ds want_document

  unfoldable pub base_compose_all : Delta Op → List (Delta Op) → Bool → Result (Delta Op)
  unfolding compose_steps
  base_compose_all d [] want_document = ok d
  base_compose_all d (e ∷ es) want_document = do
    first ← impl_compose d e want_document
    compose_steps first es want_document
