-- ===== src/Doc/Caret/Delta.antt =====
-- local-modules/@bayou/doc-common/CaretDelta.js. The arrays of the map are changed in place by the
-- source; here the map is given the changed list.
pub mod Meaning
pub mod Laws
pub mod Documents
use bayou.Prelude.{
  ◌≡◌, Bool, true, false, List, [], ◌∷◌, ◌++◌, none, some, Result, ok, ◌>>=◌, String, string_eq,
  ◌==◌, if◌then◌else◌,
}
use bayou.JsMap
use bayou.JsMap.{JsMap}
use bayou.JsMap.Grouped.{concat}
use bayou.Ot.Delta.{Delta, DeltaClass, base_compose_all}
use bayou.Doc.Caret.{Caret, Field, key}
use bayou.Doc.Caret.Op.{CaretOp, add, delete, set, compose, op_equals, rough_size}

-- `ops[i].props.key === opProps.key`
abbrev pub same_key : Field → CaretOp → Bool
same_key f (set _ g) = key g == key f
same_key f _ = false

-- The loop over the operations of one caret, and the `push()` behind it.
unfoldable pub replace : String → Field → List CaretOp → List CaretOp
replace id f [] = set id f ∷ []
replace id f (o ∷ os) =
    let rest = replace id f os in if same_key f o then set id f ∷ os else o ∷ rest

-- What `setField` makes of the operations that its caret has.
unfoldable pub set_in : String → Field → List CaretOp → Result (List CaretOp)
unfolding replace
set_in id f (add c ∷ []) = do caret ← compose c (set id f ∷ []); ok (add caret ∷ [])
set_in id f (delete d ∷ []) = ok (delete d ∷ [])
set_in id f ops = ok (replace id f ops)

-- One turn of the loop of `_impl_compose()`.
unfoldable pub compose_op :
    Bool → JsMap String (List CaretOp) → CaretOp → Result (JsMap String (List CaretOp))
unfolding set_in
compose_op want_document carets (add c) = ok (JsMap.set c.id (add c ∷ []) carets)
compose_op want_document carets (delete id) =
    ok (if want_document then JsMap.delete id carets else JsMap.set id (delete id ∷ []) carets)
compose_op want_document carets (set id f) = elim (JsMap.get id carets) [
  | none ↦ ok (JsMap.set id (set id f ∷ []) carets)
  | some ops ↦ (set_in id f ops >>= λ changed. ok (JsMap.set id changed carets))
]

unfoldable pub compose_ops :
    Bool → JsMap String (List CaretOp) → Delta CaretOp → Result (JsMap String (List CaretOp))
unfolding compose_op
compose_ops want_document carets [] = ok carets
compose_ops want_document carets (op ∷ ops) = do
  next ← compose_op want_document carets op
  compose_ops want_document next ops

unfoldable pub impl_compose : Delta CaretOp → Delta CaretOp → Bool → Result (Delta CaretOp)
unfolding compose_ops
impl_compose this other want_document = do
  carets ← compose_ops want_document [] (this ++ other)
  ok (concat carets)

-- The loop of `_impl_isDocument()`, over the set of the IDs that were met.
unfoldable pub is_document_from : JsMap String (Unit {0}) → Delta CaretOp → Bool
is_document_from ids [] = true
is_document_from ids (add c ∷ ops) =
    if JsMap.has c.id ids then false else is_document_from (JsMap.set c.id tt ids) ops
is_document_from ids (_ ∷ ops) = false

unfoldable pub impl_is_document : Delta CaretOp → Bool
unfolding is_document_from
impl_is_document ops = is_document_from [] ops

abbrev pub caret_class : DeltaClass CaretOp
caret_class = record {
  impl_compose = impl_compose;
  impl_compose_all = base_compose_all impl_compose impl_is_document;
  impl_is_document = impl_is_document;
  op_equals = op_equals;
  op_rough_size = rough_size;
}
