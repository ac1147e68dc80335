-- ===== src/Doc/Property/Snapshot.antt =====
-- local-modules/@bayou/doc-common/PropertySnapshot.js. The map that the constructor makes of the
-- contents is computed from them where it is read.
pub mod Laws
pub mod Diff
use bayou.Prelude.{
  ℕ, ◌≡◌, Bool, true, false, not, ◌&&◌, Option, none, some, List, [], ◌∷◌, ◌++◌, String, string_eq,
  Result, ok, err, wtf, bad_use, ◌>>=◌, Eq, ◌==◌, nat_eq, if◌then◌else◌,
}
use bayou.Syntax.{check_identifier}
use bayou.JsMap
use bayou.JsMap.{JsMap}
use bayou.Ot.Delta.{Delta}
use bayou.Ot.Change.{Change, change}
use bayou.Ot.Snapshot
use bayou.Ot.Snapshot.{Snapshot}
use bayou.Doc.Property.Op.{Property, PropertyOp, delete, set, op_equals, op_set, op_delete}
use bayou.Doc.Property.Delta.{property_class}

module _ {V : Type 0} where
  -- The loop of the constructor.
  unfoldable pub build :
      JsMap String (PropertyOp V) → Delta (PropertyOp V) → Result (JsMap String (PropertyOp V))
  build m [] = ok m
  build m (delete _ ∷ ops) = err wtf
  build m (set p ∷ ops) = build (JsMap.set p.name (set p) m) ops

  unfoldable pub properties : Snapshot (PropertyOp V) → Result (JsMap String (PropertyOp V))
  unfolding build
  properties s = build [] s.contents

  -- `found ? found.props.property : null`
  abbrev pub property_of : Option (PropertyOp V) → Option (Property V)
  property_of (some (set p)) = some p
  property_of _ = none

  unfoldable pub get_or_null : Snapshot (PropertyOp V) → String → Result (Option (Property V))
  unfolding properties
  get_or_null s name = do
    checked ← check_identifier name
    m ← properties s
    ok (property_of (JsMap.get checked m))

  unfoldable pub get : Snapshot (PropertyOp V) → String → Result (Property V)
  unfolding get_or_null
  get s name = do found ← get_or_null s name; elim found [ some p ↦ ok p | none ↦ err bad_use ]

  unfoldable pub has : Snapshot (PropertyOp V) → String → Result Bool
  unfolding properties
  has s name = do checked ← check_identifier name; m ← properties s; ok (JsMap.has checked m)

module _ {V : Type 0} ⦃v : Eq V⦄ where
  -- `op.equals(x)`, where `x` may be `undefined`.
  abbrev pub same_op : PropertyOp V → Option (PropertyOp V) → Bool
  same_op op none = false
  same_op op (some o) = op_equals op o

  unfoldable pub with_property :
      Snapshot (PropertyOp V) → String → V → Result (Snapshot (PropertyOp V))
  unfolding properties
  with_property s name value = do
    op ← op_set name value
    m ← properties s
    if same_op op (JsMap.get name m)
        then ok s
        else Snapshot.compose property_class s (change s.rev_num (op ∷ []))

  unfoldable pub without_property :
      Snapshot (PropertyOp V) → String → Result (Snapshot (PropertyOp V))
  unfolding properties
  without_property s name = do
    op ← op_delete name
    m ← properties s
    if JsMap.has name m
        then Snapshot.compose property_class s (change s.rev_num (op ∷ []))
        else ok s

  -- The first loop of `_impl_diffAsDelta()`: what is new or has changed.
  unfoldable pub changed_ops :
      JsMap String (PropertyOp V) → JsMap String (PropertyOp V) → Delta (PropertyOp V)
  changed_ops older [] = []
  changed_ops older ((name, op) ∷ newer) =
      let rest = changed_ops older newer in
      if same_op op (JsMap.get name older) then rest else op ∷ rest

  -- The second loop: what is gone.
  unfoldable pub removed_ops :
      JsMap String (PropertyOp V) → JsMap String (PropertyOp V) → Result (Delta (PropertyOp V))
  removed_ops newer [] = ok []
  removed_ops newer ((name, _) ∷ older) = elim (JsMap.get name newer) [
    | some _ ↦ removed_ops newer older
    | none ↦ do op ← op_delete name; rest ← removed_ops newer older; ok (op ∷ rest)
  ]

  unfoldable pub impl_diff_as_delta :
      Snapshot (PropertyOp V) → Snapshot (PropertyOp V) → Result (Delta (PropertyOp V))
  unfolding properties changed_ops removed_ops
  impl_diff_as_delta s newer = do
    older_props ← properties s
    newer_props ← properties newer
    removed ← removed_ops newer_props older_props
    ok (changed_ops older_props newer_props ++ removed)

  unfoldable pub diff :
      Snapshot (PropertyOp V) → Snapshot (PropertyOp V) → Result (Change (PropertyOp V))
  unfolding impl_diff_as_delta
  diff s newer = Snapshot.diff property_class impl_diff_as_delta s newer

  -- The loop of `equals()`.
  unfoldable pub all_same : JsMap String (PropertyOp V) → JsMap String (PropertyOp V) → Bool
  all_same [] other = true
  all_same ((name, op) ∷ m) other =
      if same_op op (JsMap.get name other) then all_same m other else false

  unfoldable pub equals : Snapshot (PropertyOp V) → Snapshot (PropertyOp V) → Result Bool
  unfolding properties all_same
  equals s t = do
    this_props ← properties s
    other_props ← properties t
    ok (
        (s.rev_num == t.rev_num)
        && (JsMap.size this_props == JsMap.size other_props)
        && all_same this_props other_props)
