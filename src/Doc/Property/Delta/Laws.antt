-- ===== src/Doc/Property/Delta/Laws.antt =====
-- About local-modules/@bayou/doc-common/PropertyDelta.js, by what a delta makes of properties.
use bayou.Prelude.{
  ◌≡◌, refl, sym, ◌∙◌, true, false, [], ◌∷◌, ◌++◌, append-nil, Option, none, some, ok, Eq, String,
  string_eq, arith,
}
use bayou.JsMap
use bayou.JsMap.{JsMap, get-set, get-delete}
use bayou.JsMap.Keyed.{eval, act_option, eval-values, eval_local, eval-append, eval_empty}
use bayou.JsMap.Rewrite.{write_all, eval-write_all}
use bayou.JsMap.Distinct.{
  IsDocumentMap, set-IsDocumentMap, delete-IsDocumentMap, empty-IsDocumentMap, distinct,
  distinct-values, distinct-IsMapOf,
}
use bayou.Ot.Delta.{Delta}
use bayou.Ot.Delta.Laws.{IsDeltaClass, base_compose_many}
use bayou.Doc.Property.Op.{PropertyOp, delete, set, key, is_set}
use bayou.Doc.Property.Delta.{
  compose_ops, impl_compose, is_document_from, impl_is_document, property_class,
}

-- What an operation makes of the value of its own name.
abbrev pub act : {V : Type 0} → PropertyOp V → Option V → Option V
act (delete _) _ = none
act (set p) _ = some p.value

-- The properties that a delta makes of given ones.
abbrev pub apply : {V : Type 0} → Delta (PropertyOp V) → (String → Option V) → String → Option V
apply = eval key act

-- The properties of a document.
abbrev pub meaning : {V : Type 0} → Delta (PropertyOp V) → String → Option V
meaning d = apply d (λ _. none)

module _ {V : Type 0} where
  is_document_from-eq :
      (names : JsMap String (Unit {0})) (d : Delta (PropertyOp V))
      → is_document_from names d ≡ distinct key is_set names d
  unfolding is_document_from distinct
  is_document_from-eq names [] = refl
  is_document_from-eq names (delete n ∷ ops) = refl
  is_document_from-eq names (set p ∷ ops) =
      ground (arith, is_document_from-eq (JsMap.set p.name tt names) ops)

  pub is_document-eq : (d : Delta (PropertyOp V)) → impl_is_document d ≡ distinct key is_set [] d
  unfolding impl_is_document
  is_document-eq d = is_document_from-eq [] d

  compose_ops-write_all :
      (m : JsMap String (PropertyOp V)) (d : Delta (PropertyOp V))
      → compose_ops false m d ≡ write_all key d m
  unfolding compose_ops write_all
  compose_ops-write_all m [] = refl
  compose_ops-write_all m (delete n ∷ ops) = compose_ops-write_all (JsMap.set n (delete n) m) ops
  compose_ops-write_all m (set p ∷ ops) = compose_ops-write_all (JsMap.set p.name (set p) m) ops

  compose_ops_document :
      (m : JsMap String (PropertyOp V)) (d : Delta (PropertyOp V))
      → IsDocumentMap key is_set m
      → IsDocumentMap key is_set (compose_ops true m d)
  unfolding compose_ops
  compose_ops_document m [] h = h
  compose_ops_document m (delete n ∷ ops) h =
      compose_ops_document (JsMap.delete n m) ops (delete-IsDocumentMap key is_set n m h)
  compose_ops_document m (set p ∷ ops) h =
      compose_ops_document (JsMap.set p.name (set p) m) ops
        (set-IsDocumentMap key is_set (set p) m refl h)

  -- Over a document, the loop's map has at each name what the operations make of it.
  compose_ops-meaning :
      (m : JsMap String (PropertyOp V)) (d : Delta (PropertyOp V)) (k : String)
      → act_option key act (JsMap.get k (compose_ops true m d)) none
        ≡ apply d (λ j. act_option key act (JsMap.get j m) none) k
  unfolding compose_ops eval
  compose_ops-meaning m [] k = refl
  compose_ops-meaning m (delete n ∷ ops) k =
      compose_ops-meaning (JsMap.delete n m) ops k
      ∙ eval_local key act ops _ _ k (ground (arith, get-delete n k m))
  compose_ops-meaning m (set p ∷ ops) k =
      compose_ops-meaning (JsMap.set p.name (set p) m) ops k
      ∙ eval_local key act ops _ _ k (ground (arith, get-set p.name k (set p) m))

  overrides : (o p : PropertyOp V) (a : Option V) → act o (act p a) ≡ act o a
  overrides (delete _) p a = refl
  overrides (set _) p a = refl

  -- Composing two deltas into a delta does not throw, and the result does to any properties what
  -- the first and then the second does.
  pub apply-compose :
      (a b : Delta (PropertyOp V))
      → (r : Delta (PropertyOp V)) × (impl_compose a b false ≡ ok r)
        × ((s : String → Option V) (k : String) → apply r s k ≡ apply b (apply a s) k)
  unfolding impl_compose
  apply-compose a b = (
    JsMap.values (write_all key (a ++ b) []),
    rw compose_ops-write_all,
    λ s k. eval-write_all key act overrides (a ++ b) s k ∙ eval-append key act a b s k,
  )

  document_compose :
      (d e : Delta (PropertyOp V))
      → impl_is_document d ≡ true
      → IsDocumentMap key is_set (compose_ops true [] (d ++ e))
  document_compose d e h = compose_ops_document [] (d ++ e) (empty-IsDocumentMap key is_set)

  -- Composing a delta onto a document does not throw: it gives a document, whose properties are
  -- those that the delta makes of the document's.
  pub meaning-compose :
      (d e : Delta (PropertyOp V))
      → impl_is_document d ≡ true
      → (r : Delta (PropertyOp V)) × (impl_compose d e true ≡ ok r)
        × (impl_is_document r ≡ true)
        × ((k : String) → meaning r k ≡ apply e (meaning d) k)
  unfolding impl_compose
  meaning-compose d e h =
      let w = document_compose d e h in
      (
        JsMap.values (compose_ops true [] (d ++ e)),
        refl,
        is_document-eq (JsMap.values (compose_ops true [] (d ++ e)))
            ∙ distinct-values key is_set (compose_ops true [] (d ++ e)) w,
        λ k.
            eval-values key act (compose_ops true [] (d ++ e)) (λ _. none) k w.keyed w.unique
            ∙ compose_ops-meaning [] (d ++ e) k
            ∙ eval_empty key act (d ++ e) (λ _. none) k
            ∙ eval-append key act d e (λ _. none) k,
      )

  compose_ops_sets :
      (m : JsMap String (PropertyOp V)) (d : Delta (PropertyOp V)) (names : JsMap String (Unit {0}))
      → distinct key is_set names d ≡ true
      → compose_ops true m d ≡ write_all key d m
  unfolding compose_ops write_all distinct
  compose_ops_sets m [] names h = refl
  compose_ops_sets m (delete n ∷ ops) names h = absurd (ground arith)
  compose_ops_sets m (set p ∷ ops) names h =
      ground (arith, compose_ops_sets (JsMap.set p.name (set p) m) ops (JsMap.set p.name tt names))

  compose_empty :
      (d : Delta (PropertyOp V)) → impl_is_document d ≡ true → impl_compose d [] true ≡ ok d
  unfolding impl_compose
  compose_empty d h =
      let w : distinct key is_set [] d ≡ true = sym (is_document-eq d) ∙ h in
      rw (append-nil d, compose_ops_sets [] d [] w, (distinct-IsMapOf key is_set d w).same)

-- Every delta of properties is valid.
abbrev pub AnyDelta : {V : Type 0} → Delta (PropertyOp V) → Type 0
AnyDelta _ = Unit

-- Property deltas meet the contract of the framework.
pub property_laws : {V : Type 0} ⦃v : Eq V⦄ → IsDeltaClass (property_class {V = V}) AnyDelta
property_laws {V} = record {
  compose_document = total;
  compose_empty = λ d _. compose_empty d;
  empty_valid = tt;
  compose_many = λ d e f fs a b c w h.
      base_compose_many property_class AnyDelta total d e f fs a b c w h (λ g gs. refl);
}
  where
    total :
        (d e : Delta (PropertyOp V))
        → AnyDelta d
        → AnyDelta e
        → impl_is_document d ≡ true
        → (r : Delta (PropertyOp V)) × (impl_compose d e true ≡ ok r)
          × (impl_is_document r ≡ true)
          × AnyDelta r
    total d e _ _ h = let (r, p, q, _) = meaning-compose d e h in (r, p, q, tt)
