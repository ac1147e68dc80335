-- ===== src/Doc/Caret/Delta/Documents.antt =====
-- About composing onto a document by local-modules/@bayou/doc-common/CaretDelta.js.
use bayou.Prelude.{
  ◌≡◌, refl, sym, ◌∙◌, ap, Bool, true, false, ◌&&◌, List, [], ◌∷◌, ◌++◌, Option, none, some, ok,
  String, string_eq, ◌==◌, if◌then◌else◌, arith, Option-cases, Bool-cases, inl, inr,
}
use bayou.JsMap
use bayou.JsMap.{JsMap, get-set, get-delete}
use bayou.JsMap.Keyed.{eval, act_option, eval-values, eval_local, eval-append}
use bayou.JsMap.Grouped.{concat}
use bayou.JsMap.Distinct.{
  IsDocumentMap, set-IsDocumentMap, delete-IsDocumentMap, empty-IsDocumentMap, distinct,
  distinct-values, entry_of,
}
use bayou.Ot.Delta.{Delta}
use bayou.Doc.Caret.{Caret, Field, set_field}
use bayou.Doc.Caret.Fields.{set_field-id}
use bayou.Doc.Caret.Op.{CaretOp, add, delete, set, caret_id, is_add, compose}
use bayou.Doc.Caret.Delta.{
  set_in, compose_op, compose_ops, impl_compose, is_document_from, impl_is_document,
}
use bayou.Doc.Caret.Delta.Meaning.{act, apply, meaning}

-- Each caret whose field is set is there at that point.
abbrev pub step : CaretOp → (String → Option Caret) → String → Option Caret
step op s k = if caret_id op == k then act op (s k) else s k

abbrev pub allowed : CaretOp → Option Caret → Bool
allowed (set _ _) none = false
allowed _ _ = true

unfoldable pub applies : Delta CaretOp → (String → Option Caret) → Bool
applies [] s = true
applies (op ∷ ops) s = allowed op (s (caret_id op)) && applies ops (step op s)

pub applies_local :
    (ops : Delta CaretOp) (s t : String → Option Caret)
    → ((k : String) → s k ≡ t k)
    → applies ops s ≡ applies ops t
unfolding applies
applies_local [] s t h = refl
applies_local (op ∷ ops) s t h =
    ground
      (arith, h (caret_id op), applies_local ops (step op s) (step op t) (λ k. ground (arith, h k)))

pub applies-append :
    (a b : Delta CaretOp) (s : String → Option Caret)
    → applies (a ++ b) s ≡ (applies a s && applies b (apply a s))
unfolding applies eval
applies-append [] b s = applies_local b s (λ k. s k) (λ k. refl)
applies-append (op ∷ a) b s = ground (arith, applies-append a b (step op s))

is_document_from-eq :
    (ids : JsMap String (Unit {0})) (d : Delta CaretOp)
    → is_document_from ids d ≡ distinct caret_id is_add ids d
unfolding is_document_from distinct
is_document_from-eq ids [] = refl
is_document_from-eq ids (add c ∷ ops) =
    ground (arith, is_document_from-eq (JsMap.set c.id tt ids) ops)
is_document_from-eq ids (delete _ ∷ ops) = refl
is_document_from-eq ids (set _ _ ∷ ops) = refl

pub is_document-eq : (d : Delta CaretOp) → impl_is_document d ≡ distinct caret_id is_add [] d
unfolding impl_is_document
is_document-eq d = is_document_from-eq [] d

document-applies :
    (d : Delta CaretOp) (ids : JsMap String (Unit {0})) (s : String → Option Caret)
    → distinct caret_id is_add ids d ≡ true
    → applies d s ≡ true
unfolding applies distinct
document-applies [] ids s h = refl
document-applies (add c ∷ d) ids s h =
    ground (arith, document-applies d (JsMap.set c.id tt ids) (step (add c) s))
document-applies (delete _ ∷ d) ids s h = absurd (ground arith)
document-applies (set _ _ ∷ d) ids s h = absurd (ground arith)

-- A map with one operation for each caret.
abbrev singles : JsMap String CaretOp → JsMap String (List CaretOp)
singles [] = []
singles ((k, o) ∷ m) = (k, o ∷ []) ∷ singles m

singles-set :
    (k : String) (o : CaretOp) (m : JsMap String CaretOp)
    → JsMap.set k (o ∷ []) (singles m) ≡ singles (JsMap.set k o m)
unfolding JsMap.set
singles-set k o [] = refl
singles-set k o ((j, p) ∷ m) = elim (Bool-cases (j == k)) [
  | inl q ↦ rw q
  | inr q ↦ rw q (rw (singles-set k o m))
]

singles-delete :
    (k : String) (m : JsMap String CaretOp)
    → JsMap.delete k (singles m) ≡ singles (JsMap.delete k m)
unfolding JsMap.delete
singles-delete k [] = refl
singles-delete k ((j, p) ∷ m) = elim (Bool-cases (j == k)) [
  | inl q ↦ rw q (singles-delete k m)
  | inr q ↦ rw q (rw (singles-delete k m))
]

singles-get :
    (k : String) (m : JsMap String CaretOp) {o : CaretOp}
    → JsMap.get k m ≡ some o
    → JsMap.get k (singles m) ≡ some (o ∷ [])
unfolding JsMap.get
singles-get k [] h = absurd (ground arith)
singles-get k ((j, p) ∷ m) h = elim (Bool-cases (j == k)) [
  | inl q ↦ rw q (ground (arith, h))
  | inr q ↦ rw q (singles-get k m (rw q at h))
]

concat-singles : (m : JsMap String CaretOp) → concat (singles m) ≡ JsMap.values m
unfolding concat
concat-singles [] = refl
concat-singles ((k, o) ∷ m) = ap (λ l. o ∷ l) (concat-singles m)

-- The carets of a map.
abbrev pub stored : JsMap String CaretOp → String → Option Caret
stored m k = act_option caret_id act (JsMap.get k m) none

record Turn (m : JsMap String CaretOp) (op : CaretOp) : Type 0 where
  after : JsMap String CaretOp
  runs : compose_op true (singles m) op ≡ ok (singles after)
  document : IsDocumentMap caret_id is_add after
  stores : (k : String) → stored after k ≡ step op (stored m) k

-- `setField` on a caret of the document.
Turn-set :
    (m : JsMap String CaretOp) (id : String) (f : Field) (o : CaretOp)
    → IsDocumentMap caret_id is_add m
    → JsMap.get id m ≡ some o
    → (caret_id o ≡ id) × (is_add o ≡ true)
    → Turn m (set id f)
unfolding compose_op set_in compose
Turn-set m id f (add c) d q (e, w) = record {
  after = JsMap.set (caret_id (add (set_field f c))) (add (set_field f c)) m;
  runs = ground (
    arith,
    singles-get id m q,
    string_eq.beq_iff id c.id,
    e,
    set_field-id f c,
    singles-set id (add (set_field f c)) m,
  );
  document = set-IsDocumentMap caret_id is_add (add (set_field f c)) m refl d;
  stores = λ k. ground (
    arith,
    get-set (caret_id (add (set_field f c))) k (add (set_field f c)) m,
    set_field-id f c,
    e,
    q,
    string_eq.beq_iff id k,
  );
}
Turn-set m id f (delete _) d q (e, w) = absurd (ground arith)
Turn-set m id f (set _ _) d q (e, w) = absurd (ground arith)

turn :
    (m : JsMap String CaretOp) (op : CaretOp)
    → IsDocumentMap caret_id is_add m
    → allowed op (stored m (caret_id op)) ≡ true
    → Turn m op
unfolding compose_op
turn m (add c) d h = record {
  after = JsMap.set c.id (add c) m;
  runs = ap ok (singles-set c.id (add c) m);
  document = set-IsDocumentMap caret_id is_add (add c) m refl d;
  stores = λ k. ground (arith, get-set c.id k (add c) m);
}
turn m (delete id) d h = record {
  after = JsMap.delete id m;
  runs = ap ok (singles-delete id m);
  document = delete-IsDocumentMap caret_id is_add id m d;
  stores = λ k. ground (arith, get-delete id k m);
}
turn m (set id f) d h = elim (Option-cases (JsMap.get id m)) [
  | inl q ↦ absurd (ground arith)
  | inr (o, q) ↦ Turn-set m id f o d q (entry_of caret_id is_add id m d q)
]

record Turns (m : JsMap String CaretOp) (ops : Delta CaretOp) : Type 0 where
  after : JsMap String CaretOp
  runs : compose_ops true (singles m) ops ≡ ok (singles after)
  document : IsDocumentMap caret_id is_add after
  stores : (k : String) → stored after k ≡ apply ops (stored m) k

turns :
    (m : JsMap String CaretOp) (ops : Delta CaretOp)
    → IsDocumentMap caret_id is_add m
    → applies ops (stored m) ≡ true
    → Turns m ops
unfolding compose_ops applies eval
turns m [] d h = record { after = m; runs = refl; document = d; stores = λ k. refl }
turns m (op ∷ ops) d h =
    let t = turn m op d (ground (arith, h)) in
    let r =
      turns t.after ops t.document
        (applies_local ops (stored t.after) (step op (stored m)) t.stores ∙ ground (arith, h)) in
    record {
      after = r.after;
      runs = rw t.runs r.runs;
      document = r.document;
      stores = λ k.
          r.stores k
          ∙ eval_local caret_id act ops (stored t.after) (step op (stored m)) k (t.stores k);
    }

-- Composing a delta onto a document, where each caret of which the delta sets a field is there at
-- that point, does not throw: it gives a document, whose carets are those that the delta makes of
-- the document's.
pub carets-impl_compose :
    (d e : Delta CaretOp)
    → impl_is_document d ≡ true
    → applies e (meaning d) ≡ true
    → (r : Delta CaretOp) × (impl_compose d e true ≡ ok r)
      × (impl_is_document r ≡ true)
      × ((k : String) → meaning r k ≡ apply e (meaning d) k)
unfolding impl_compose JsMap.get
carets-impl_compose d e h g =
    let a : applies (d ++ e) (stored []) ≡ true =
      applies-append d e (stored [])
      ∙ ground (
        arith,
        document-applies d [] (stored []) (sym (is_document-eq d) ∙ h),
        applies_local e (apply d (stored [])) (meaning d)
            (λ k. eval_local caret_id act d (stored []) (λ _. none) k refl),
        g,
      ) in
    let t = turns [] (d ++ e) (empty-IsDocumentMap caret_id is_add) a in
    (
      JsMap.values t.after,
      rw t.runs (ap ok (concat-singles t.after)),
      is_document-eq (JsMap.values t.after) ∙ distinct-values caret_id is_add t.after t.document,
      λ k.
          eval-values caret_id act t.after (λ _. none) k t.document.keyed t.document.unique
          ∙ t.stores k
          ∙ eval_local caret_id act (d ++ e) (stored []) (λ _. none) k refl
          ∙ eval-append caret_id act d e (λ _. none) k,
    )
