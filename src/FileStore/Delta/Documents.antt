-- ===== src/FileStore/Delta/Documents.antt =====
-- About the loop of local-modules/@bayou/file-store-ot/FileDelta.js, without tracked deletions.
use bayou.Prelude.{
  ◌-◌, ◌≡◌, refl, sym, ◌∙◌, ap, true, false, [], ◌∷◌, Option, none, ok, String, string_eq, arith,
}
use bayou.JsMap
use bayou.JsMap.{JsMap, get-set, get-delete}
use bayou.JsMap.Keyed.{act_option}
use bayou.JsMap.Distinct.{
  IsDocumentMap, set-IsDocumentMap, delete-IsDocumentMap, empty-IsDocumentMap, distinct, IsMapOf,
  distinct-IsMapOf, distinct-values, values-write_all,
}
use bayou.JsMap.Rewrite.{write_all}
use bayou.Ot.Delta.{Delta}
use bayou.FileStore.Op.{
  FileOp, delete_all, delete_blob, delete_path, delete_path_prefix, delete_path_range, write_blob,
  write_path,
}
use bayou.FileStore.Delta.{
  Composing, compose_op, compose_one, delete_indexes, is_document_from, impl_is_document,
}
use bayou.FileStore.Delta.Meaning.{
  apply_op, apply, key, act, is_write, HasPath, Valid, apply_local, drop_hits, delete_hits-eq,
  get-drop_hits-keys, get-delete_indexes, drop_hits-IsDocumentMap, delete_indexes-IsDocumentMap,
}

-- Composing onto a document, with this map.
abbrev pub onto : {B : Type 0} → JsMap String (FileOp B) → Composing B
onto m = record { op_map = m; delete_set = [] }

module _ {B : Type 0} (hash : B → String) where
  -- What a document's map stores under an ID.
  abbrev pub stored : JsMap String (FileOp B) → String → Option B
  stored m k = act_option (key hash) act (JsMap.get k m) none

  record Turn (m : JsMap String (FileOp B)) (op : FileOp B) : Type 0 where
    after : JsMap String (FileOp B)
    runs : compose_op hash false (onto m) op ≡ ok (onto after)
    mapped : IsDocumentMap (key hash) is_write after
    views : (k : String) → stored after k ≡ apply_op hash op (stored m) k

  turn :
      (m : JsMap String (FileOp B)) (op : FileOp B)
      → HasPath op
      → IsDocumentMap (key hash) is_write m
      → Turn m op
  unfolding compose_op
  turn m delete_all h w = record {
    after = [];
    runs = refl;
    mapped = empty-IsDocumentMap (key hash) is_write;
    views = λ k. unfold JsMap.get in refl;
  }
  turn m (delete_blob h) _ w = record {
    after = JsMap.delete h m;
    runs = refl;
    mapped = delete-IsDocumentMap (key hash) is_write h m w;
    views = λ k. ground (arith, get-delete h k m);
  }
  turn m (delete_path h) _ w = record {
    after = JsMap.delete h m;
    runs = refl;
    mapped = delete-IsDocumentMap (key hash) is_write h m w;
    views = λ k. ground (arith, get-delete h k m);
  }
  turn m (delete_path_prefix p) h w = record {
    after = drop_hits p (JsMap.keys m) m;
    runs = rw (delete_hits-eq p (JsMap.keys m) m h);
    mapped = drop_hits-IsDocumentMap (key hash) is_write p (JsMap.keys m) m w;
    views = λ k. ground (arith, get-drop_hits-keys p m k);
  }
  turn m (delete_path_range p from until) h w = record {
    after = delete_indexes p from (until - from) m;
    runs = refl;
    mapped = delete_indexes-IsDocumentMap (key hash) is_write p from (until - from) m w;
    views = λ k. ground (arith, get-delete_indexes p from (until - from) m k);
  }
  turn m (write_blob b) _ w = record {
    after = JsMap.set (hash b) (write_blob b) m;
    runs = refl;
    mapped = set-IsDocumentMap (key hash) is_write (write_blob b) m refl w;
    views = λ k. ground (arith, get-set (hash b) k (write_blob b) m);
  }
  turn m (write_path p b) _ w = record {
    after = JsMap.set p (write_path p b) m;
    runs = refl;
    mapped = set-IsDocumentMap (key hash) is_write (write_path p b) m refl w;
    views = λ k. ground (arith, get-set p k (write_path p b) m);
  }

  -- The loop over a whole delta.
  pub record Turns (m : JsMap String (FileOp B)) (d : Delta (FileOp B)) : Type 0 where
    pub after : JsMap String (FileOp B)
    pub runs : compose_one hash false (onto m) d ≡ ok (onto after)
    pub mapped : IsDocumentMap (key hash) is_write after
    pub views : (k : String) → stored after k ≡ apply hash d (stored m) k

  pub turns :
      (m : JsMap String (FileOp B)) (d : Delta (FileOp B))
      → Valid d
      → IsDocumentMap (key hash) is_write m
      → Turns m d
  unfolding compose_one apply
  turns m [] v w = record { after = m; runs = refl; mapped = w; views = λ k. refl }
  turns m (op ∷ ops) (h, v) w =
      let t = turn m op h w in
      let r = turns t.after ops v t.mapped in
      record {
        after = r.after;
        runs = rw t.runs r.runs;
        mapped = r.mapped;
        views = λ k.
            r.views k
            ∙ apply_local hash ops (stored t.after) (apply_op hash op (stored m)) k (t.views k);
      }

  -- The loop over the operations of a document writes its map.
  compose_writes :
      (m : JsMap String (FileOp B)) (d : Delta (FileOp B)) (ids : JsMap String (Unit {0}))
      → distinct (key hash) is_write ids d ≡ true
      → compose_one hash false (onto m) d ≡ ok (onto (write_all (key hash) d m))
  unfolding compose_one compose_op write_all distinct
  compose_writes m [] ids h = refl
  compose_writes m (write_blob b ∷ ops) ids h =
      ground (
        arith,
        compose_writes (JsMap.set (hash b) (write_blob b) m) ops (JsMap.set (hash b) tt ids),
      )
  compose_writes m (write_path p b ∷ ops) ids h =
      ground (arith, compose_writes (JsMap.set p (write_path p b) m) ops (JsMap.set p tt ids))
  compose_writes m (delete_all ∷ ops) ids h = absurd (ground arith)
  compose_writes m (delete_blob _ ∷ ops) ids h = absurd (ground arith)
  compose_writes m (delete_path _ ∷ ops) ids h = absurd (ground arith)
  compose_writes m (delete_path_prefix _ ∷ ops) ids h = absurd (ground arith)
  compose_writes m (delete_path_range _ _ _ ∷ ops) ids h = absurd (ground arith)

  is_document_from-eq :
      (ids : JsMap String (Unit {0})) (d : Delta (FileOp B))
      → is_document_from hash ids d ≡ distinct (key hash) is_write ids d
  unfolding is_document_from distinct
  is_document_from-eq ids [] = refl
  is_document_from-eq ids (write_blob b ∷ ops) =
      ground (arith, is_document_from-eq (JsMap.set (hash b) tt ids) ops)
  is_document_from-eq ids (write_path p b ∷ ops) =
      ground (arith, is_document_from-eq (JsMap.set p tt ids) ops)
  is_document_from-eq ids (delete_all ∷ ops) = refl
  is_document_from-eq ids (delete_blob _ ∷ ops) = refl
  is_document_from-eq ids (delete_path _ ∷ ops) = refl
  is_document_from-eq ids (delete_path_prefix _ ∷ ops) = refl
  is_document_from-eq ids (delete_path_range _ _ _ ∷ ops) = refl

  pub is_document-eq :
      (d : Delta (FileOp B)) → impl_is_document hash d ≡ distinct (key hash) is_write [] d
  unfolding impl_is_document
  is_document-eq d = is_document_from-eq [] d

  -- A document is the values of its map, and composing starts from that map.
  pub document_map :
      (d : Delta (FileOp B))
      → impl_is_document hash d ≡ true
      → IsMapOf (key hash) is_write d (write_all (key hash) d [])
  document_map d h = distinct-IsMapOf (key hash) is_write d (sym (is_document-eq d) ∙ h)

  pub compose_document :
      (d : Delta (FileOp B))
      → impl_is_document hash d ≡ true
      → compose_one hash false (onto []) d ≡ ok (onto (write_all (key hash) d []))
  compose_document d h = compose_writes [] d [] (sym (is_document-eq d) ∙ h)

  pub is_document-values :
      (m : JsMap String (FileOp B))
      → IsDocumentMap (key hash) is_write m
      → impl_is_document hash (JsMap.values m) ≡ true
  is_document-values m w = is_document-eq (JsMap.values m) ∙ distinct-values (key hash) is_write m w

  pub restart :
      (m : JsMap String (FileOp B))
      → IsDocumentMap (key hash) is_write m
      → compose_one hash false (onto []) (JsMap.values m) ≡ ok (onto m)
  restart m w =
      compose_document (JsMap.values m) (is_document-values m w)
      ∙ ap (λ x. ok (onto x)) (values-write_all (key hash) is_write m w)
