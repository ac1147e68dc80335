-- ===== src/FileStore/Delta/Laws.antt =====
-- About composing by local-modules/@bayou/file-store-ot/FileDelta.js.
use bayou.Prelude.{
  ℕ, ◌≡◌, refl, sym, ◌∙◌, true, false, List, [], ◌∷◌, Option, none, ok, ◌>>=◌, String, string_eq,
  Eq, All,
}
use bayou.JsMap
use bayou.JsMap.{JsMap}
use bayou.JsMap.Rewrite.{write_all}
use bayou.JsMap.Distinct.{IsDocumentMap, empty-IsDocumentMap}
use bayou.Ot.Delta.{Delta, DeltaClass, compose_all}
use bayou.Ot.Delta.Laws.{IsDeltaClass}
use bayou.FileStore.Op.{FileOp}
use bayou.FileStore.Delta.{
  Composing, start, compose_one, compose_each, compose_result, impl_compose, impl_compose_all,
  impl_is_document, file_class,
}
use bayou.FileStore.Delta.Meaning.{
  apply, meaning, key, is_write, is_single, Valid, apply-append, apply_local,
}
use bayou.FileStore.Delta.Turns
use bayou.FileStore.Delta.Turns.{apply-values, document-single, values-Valid}
use bayou.FileStore.Delta.Documents
use bayou.FileStore.Delta.Documents.{
  onto, stored, document_map, compose_document, is_document-values, restart,
}

module _ {B : Type 0} (hash : B → String) where
  -- The result of tracking means what the composing state stood for.
  apply-result :
      (st : Composing B) (s : String → Option B) (k : String)
      → IsDocumentMap (key hash) is_single st.op_map
      → apply hash (compose_result true st) s k ≡ Turns.view hash st s k
  unfolding compose_result
  apply-result st s k w =
      apply-append hash st.delete_set (JsMap.values st.op_map) s k
      ∙ apply-values hash st.op_map (apply hash st.delete_set s) k w

  start-view : (s : String → Option B) (k : String) → Turns.view hash start s k ≡ s k
  unfolding apply JsMap.get
  start-view s k = refl

  -- Composing two deltas into a delta, where their path prefixes are paths, does not throw, and the
  -- result does to any stored blobs what the first and then the second does.
  pub apply-impl_compose :
      (a b : Delta (FileOp B))
      → Valid a
      → Valid b
      → (r : Delta (FileOp B)) × (impl_compose hash a b false ≡ ok r)
        × ((s : String → Option B) (k : String)
            → apply hash r s k ≡ apply hash b (apply hash a s) k)
  unfolding impl_compose
  apply-impl_compose a b va vb =
      let t = Turns.turns hash start a va (empty-IsDocumentMap (key hash) is_single) in
      let u = Turns.turns hash t.after b vb t.mapped in
      (
        compose_result true u.after,
        rw (t.runs, u.runs),
        λ s k.
            apply-result u.after s k u.mapped
            ∙ u.views s k
            ∙ apply_local hash b (Turns.view hash t.after s) (apply hash a s) k
                (t.views s k ∙ apply_local hash a (Turns.view hash start s) s k (start-view s k)),
      )

  -- The blobs of a document are those that its map stores.
  pub meaning-stored :
      (m : JsMap String (FileOp B)) (k : String)
      → IsDocumentMap (key hash) is_write m
      → meaning hash (JsMap.values m) k ≡ stored hash m k
  meaning-stored m k w = apply-values hash m (λ _. none) k (document-single hash m w)

  pub document-stored :
      (d : Delta (FileOp B)) (k : String)
      → impl_is_document hash d ≡ true
      → meaning hash d k ≡ stored hash (write_all (key hash) d []) k
  document-stored d k h =
      let w = document_map hash d h in
      rw w.same at (meaning-stored (write_all (key hash) d []) k w.document)

  -- Composing a delta onto a document, where the delta's path prefixes are paths, does not throw:
  -- it gives a valid document, which stores under each ID what the delta makes of the document's
  -- blobs.
  pub blobs-impl_compose :
      (d e : Delta (FileOp B))
      → Valid e
      → impl_is_document hash d ≡ true
      → (r : Delta (FileOp B)) × (impl_compose hash d e true ≡ ok r)
        × (impl_is_document hash r ≡ true)
        × Valid r
        × ((k : String) → meaning hash r k ≡ apply hash e (meaning hash d) k)
  unfolding impl_compose compose_result
  blobs-impl_compose d e v h =
      let w = document_map hash d h in
      let t = Documents.turns hash (write_all (key hash) d []) e v w.document in
      (
        JsMap.values t.after,
        rw (compose_document hash d h, t.runs),
        is_document-values hash t.after t.mapped,
        values-Valid hash t.after t.mapped.writes,
        λ k.
            meaning-stored t.after k t.mapped
            ∙ t.views k
            ∙ apply_local hash e (stored hash (write_all (key hash) d [])) (meaning hash d) k
                (sym (document-stored d k h)),
      )

  compose_empty :
      (d : Delta (FileOp B)) → impl_is_document hash d ≡ true → impl_compose hash d [] true ≡ ok d
  unfolding impl_compose compose_result compose_one
  compose_empty d h = rw (compose_document hash d h, (document_map hash d h).same)

  record Each (m : JsMap String (FileOp B)) (ds : List (Delta (FileOp B))) : Type 0 where
    after : JsMap String (FileOp B)
    runs : compose_each hash false (onto m) ds ≡ ok (onto after)
    mapped : IsDocumentMap (key hash) is_write after

  each :
      (m : JsMap String (FileOp B)) (ds : List (Delta (FileOp B)))
      → All Valid ds
      → IsDocumentMap (key hash) is_write m
      → Each m ds
  unfolding compose_each
  each m [] v w = record { after = m; runs = refl; mapped = w }
  each m (d ∷ ds) (h, v) w =
      let t = Documents.turns hash m d h w in
      let r = each t.after ds v t.mapped in
      record { after = r.after; runs = rw t.runs r.runs; mapped = r.mapped }

  module _ ⦃e : Eq B⦄ (size : B → ℕ) where
    abbrev class : DeltaClass (FileOp B)
    class = file_class hash size

    -- From the values of a map, many deltas are composed onto that map.
    compose_all-values :
        (m : JsMap String (FileOp B)) (f : Delta (FileOp B)) (fs : List (Delta (FileOp B)))
        → IsDocumentMap (key hash) is_write m
        → Valid f
        → All Valid fs
        → compose_all class (JsMap.values m) (f ∷ fs) true
          ≡ (compose_each hash false (onto m) (f ∷ fs) >>= λ l. ok (compose_result false l))
    unfolding compose_all impl_compose impl_compose_all compose_each compose_result
    compose_all-values m f [] w v vs =
        let t = Documents.turns hash m f v w in
        rw (is_document-values hash m w, restart hash m w, t.runs)
          (rw (is_document-values hash t.after t.mapped))
    compose_all-values m f (g ∷ gs) w v vs =
        let t = Documents.turns hash m f v w in
        let r = each t.after (g ∷ gs) vs t.mapped in
        rw (is_document-values hash m w, restart hash m w, t.runs)
          (rw r.runs (rw (is_document-values hash r.after r.mapped)))

    compose_many :
        (d e f : Delta (FileOp B)) (fs : List (Delta (FileOp B)))
        → Valid e
        → Valid f
        → All Valid fs
        → impl_is_document hash d ≡ true
        → impl_compose_all hash d (e ∷ f ∷ fs) true
          ≡ (impl_compose hash d e true >>= λ r. compose_all class r (f ∷ fs) true)
    unfolding impl_compose impl_compose_all compose_each compose_result
    compose_many d e f fs v vf vs h =
        let w = document_map hash d h in
        let t = Documents.turns hash (write_all (key hash) d []) e v w.document in
        rw (compose_document hash d h, t.runs)
          (sym (compose_all-values t.after f fs t.mapped vf vs))

    -- File deltas meet the contract of the framework, for deltas whose path prefixes are paths.
    pub file_laws : IsDeltaClass class Valid
    file_laws = record {
      compose_document =
          λ d e _ v h. let (r, p, q, vr, _) = blobs-impl_compose d e v h in (r, p, q, vr);
      compose_empty = λ d _ h. compose_empty d h;
      empty_valid = tt;
      compose_many = λ d e f fs _ v vf vs h. compose_many d e f fs v vf vs h;
    }
