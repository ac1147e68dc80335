-- ===== src/Doc/Property/Delta.antt =====
-- local-modules/@bayou/doc-common/PropertyDelta.js
pub mod Laws
use bayou.Prelude.{
  ◌≡◌, Bool, true, false, List, [], ◌∷◌, ◌++◌, Result, ok, Eq, String, string_eq, if◌then◌else◌,
}
use bayou.JsMap
use bayou.JsMap.{JsMap}
use bayou.Ot.Delta.{Delta, DeltaClass, base_compose_all}
use bayou.Doc.Property.Op.{PropertyOp, delete, set, op_equals, rough_size}

module _ {V : Type 0} where
  -- One turn of the loop of `_impl_compose()`.
  unfoldable pub compose_op :
      Bool → JsMap String (PropertyOp V) → PropertyOp V → JsMap String (PropertyOp V)
  compose_op want_document props (delete name) =
      if want_document then JsMap.delete name props else JsMap.set name (delete name) props
  compose_op want_document props (set property) = JsMap.set property.name (set property) props

  unfoldable pub compose_ops :
      Bool → JsMap String (PropertyOp V) → Delta (PropertyOp V) → JsMap String (PropertyOp V)
  unfolding compose_op
  compose_ops want_document props [] = props
  compose_ops want_document props (op ∷ ops) =
      compose_ops want_document (compose_op want_document props op) ops

  unfoldable pub impl_compose :
      Delta (PropertyOp V) → Delta (PropertyOp V) → Bool → Result (Delta (PropertyOp V))
  unfolding compose_ops
  impl_compose this other want_document =
      ok (JsMap.values (compose_ops want_document [] (this ++ other)))

  -- The loop of `_impl_isDocument()`, over the set of the names that were met.
  unfoldable pub is_document_from : JsMap String (Unit {0}) → Delta (PropertyOp V) → Bool
  is_document_from names [] = true
  is_document_from names (delete _ ∷ ops) = false
  is_document_from names (set property ∷ ops) =
      if JsMap.has property.name names
      then false
      else is_document_from (JsMap.set property.name tt names) ops

  unfoldable pub impl_is_document : Delta (PropertyOp V) → Bool
  unfolding is_document_from
  impl_is_document ops = is_document_from [] ops

abbrev pub property_class : {V : Type 0} ⦃v : Eq V⦄ → DeltaClass (PropertyOp V)
property_class = record {
  impl_compose = impl_compose;
  impl_compose_all = base_compose_all impl_compose impl_is_document;
  impl_is_document = impl_is_document;
  op_equals = op_equals;
  op_rough_size = rough_size;
}
