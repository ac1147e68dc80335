-- ===== src/FileStore/Delta/Turns.antt =====
-- About the turns of the loop of local-modules/@bayou/file-store-ot/FileDelta.js.
use bayou.Prelude.{
  ◌-◌, ◌≡◌, refl, ◌∙◌, true, [], ◌∷◌, ◌++◌, Option, none, some, ok, String, string_eq, ◌==◌,
  if◌then◌else◌, arith,
}
use bayou.JsMap
use bayou.JsMap.{JsMap, get-set, get-delete}
use bayou.JsMap.Keyed.{eval, act_option, eval-values}
use bayou.JsMap.Distinct.{IsDocumentMap, set-IsDocumentMap, empty-IsDocumentMap, AllWrites}
use bayou.Ot.Delta.{Delta}
use bayou.FileStore.Op.{
  FileOp, delete_all, delete_blob, delete_path, delete_path_prefix, delete_path_range, write_blob,
  write_path,
}
use bayou.FileStore.Delta.{Composing, compose_op, compose_one, delete_indexes}
use bayou.FileStore.Delta.Meaning.{
  apply_op, apply, key, act, is_write, is_single, HasPath, Valid, apply-append, apply_local,
  drop_hits, delete_hits-eq, get-drop_hits-keys, get-delete_indexes, drop_hits-IsDocumentMap,
  delete_indexes-IsDocumentMap,
}

module _ {B : Type 0} (hash : B → String) where
  -- What stands under each ID while composing, over what was stored before.
  abbrev pub view : Composing B → (String → Option B) → String → Option B
  view st s k = act_option (key hash) act (JsMap.get k st.op_map) (apply hash st.delete_set s k)

  -- A turn of the loop that tracks deletions.
  record Turn (st : Composing B) (op : FileOp B) : Type 0 where
    after : Composing B
    runs : compose_op hash true st op ≡ ok after
    mapped : IsDocumentMap (key hash) is_single after.op_map
    views : (s : String → Option B) (k : String) → view after s k ≡ apply_op hash op (view st s) k

  apply_last :
      (d : Delta (FileOp B)) (op : FileOp B) (s : String → Option B) (k : String)
      → apply hash (d ++ op ∷ []) s k ≡ apply_op hash op (apply hash d s) k
  unfolding apply
  apply_last d op s k = apply-append hash d (op ∷ []) s k

  turn :
      (st : Composing B) (op : FileOp B)
      → HasPath op
      → IsDocumentMap (key hash) is_single st.op_map
      → Turn st op
  unfolding compose_op
  turn st delete_all h w = record {
    after = record { op_map = []; delete_set = delete_all ∷ [] };
    runs = refl;
    mapped = empty-IsDocumentMap (key hash) is_single;
    views = λ s k. unfold apply JsMap.get in refl;
  }
  turn st (delete_blob h) _ w = record {
    after = record st { op_map = JsMap.set h (delete_blob h) st.op_map };
    runs = refl;
    mapped = set-IsDocumentMap (key hash) is_single (delete_blob h) st.op_map refl w;
    views = λ s k. ground (arith, get-set h k (delete_blob h) st.op_map);
  }
  turn st (delete_path h) _ w = record {
    after = record st { op_map = JsMap.set h (delete_path h) st.op_map };
    runs = refl;
    mapped = set-IsDocumentMap (key hash) is_single (delete_path h) st.op_map refl w;
    views = λ s k. ground (arith, get-set h k (delete_path h) st.op_map);
  }
  turn st (delete_path_prefix p) h w = record {
    after = record {
      op_map = drop_hits p (JsMap.keys st.op_map) st.op_map;
      delete_set = st.delete_set ++ delete_path_prefix p ∷ [];
    };
    runs = rw (delete_hits-eq p (JsMap.keys st.op_map) st.op_map h);
    mapped = drop_hits-IsDocumentMap (key hash) is_single p (JsMap.keys st.op_map) st.op_map w;
    views = λ s k.
        rw (apply_last st.delete_set (delete_path_prefix p) s k)
          (ground (arith, get-drop_hits-keys p st.op_map k));
  }
  turn st (delete_path_range p from until) h w = record {
    after = record {
      op_map = delete_indexes p from (until - from) st.op_map;
      delete_set = st.delete_set ++ delete_path_range p from until ∷ [];
    };
    runs = refl;
    mapped = delete_indexes-IsDocumentMap (key hash) is_single p from (until - from) st.op_map w;
    views = λ s k.
        rw (apply_last st.delete_set (delete_path_range p from until) s k)
          (ground (arith, get-delete_indexes p from (until - from) st.op_map k));
  }
  turn st (write_blob b) _ w = record {
    after = record st { op_map = JsMap.set (hash b) (write_blob b) st.op_map };
    runs = refl;
    mapped = set-IsDocumentMap (key hash) is_single (write_blob b) st.op_map refl w;
    views = λ s k. ground (arith, get-set (hash b) k (write_blob b) st.op_map);
  }
  turn st (write_path p b) _ w = record {
    after = record st { op_map = JsMap.set p (write_path p b) st.op_map };
    runs = refl;
    mapped = set-IsDocumentMap (key hash) is_single (write_path p b) st.op_map refl w;
    views = λ s k. ground (arith, get-set p k (write_path p b) st.op_map);
  }

  -- The loop over a whole delta.
  pub record Turns (st : Composing B) (d : Delta (FileOp B)) : Type 0 where
    pub after : Composing B
    pub runs : compose_one hash true st d ≡ ok after
    pub mapped : IsDocumentMap (key hash) is_single after.op_map
    pub views : (s : String → Option B) (k : String) → view after s k ≡ apply hash d (view st s) k

  pub turns :
      (st : Composing B) (d : Delta (FileOp B))
      → Valid d
      → IsDocumentMap (key hash) is_single st.op_map
      → Turns st d
  unfolding compose_one apply
  turns st [] v w = record { after = st; runs = refl; mapped = w; views = λ s k. refl }
  turns st (op ∷ ops) (h, v) w =
      let t = turn st op h w in
      let r = turns t.after ops v t.mapped in
      record {
        after = r.after;
        runs = rw t.runs r.runs;
        mapped = r.mapped;
        views = λ s k.
            r.views s k
            ∙ apply_local hash ops (view t.after s) (apply_op hash op (view st s)) k (t.views s k);
      }

  -- Operations on single IDs, applied one by one.
  apply_singles :
      (m : JsMap String (FileOp B)) (s : String → Option B) (k : String)
      → AllWrites is_single m
      → apply hash (JsMap.values m) s k ≡ eval (key hash) act (JsMap.values m) s k
  unfolding apply eval
  apply_singles [] s k w = refl
  apply_singles ((_, delete_all) ∷ m) s k (p, w) = absurd (ground arith)
  apply_singles ((_, delete_path_prefix _) ∷ m) s k (p, w) = absurd (ground arith)
  apply_singles ((_, delete_path_range _ _ _) ∷ m) s k (p, w) = absurd (ground arith)
  apply_singles ((_, delete_blob h) ∷ m) s k (p, w) =
      apply_singles m (λ j. if h == j then none else s j) k w
  apply_singles ((_, delete_path h) ∷ m) s k (p, w) =
      apply_singles m (λ j. if h == j then none else s j) k w
  apply_singles ((_, write_blob b) ∷ m) s k (p, w) =
      apply_singles m (λ j. if hash b == j then some b else s j) k w
  apply_singles ((_, write_path h b) ∷ m) s k (p, w) =
      apply_singles m (λ j. if h == j then some b else s j) k w

  pub apply-values :
      (m : JsMap String (FileOp B)) (s : String → Option B) (k : String)
      → IsDocumentMap (key hash) is_single m
      → apply hash (JsMap.values m) s k ≡ act_option (key hash) act (JsMap.get k m) (s k)
  apply-values m s k w =
      apply_singles m s k w.writes ∙ eval-values (key hash) act m s k w.keyed w.unique

  -- A document's map is one of operations on single IDs.
  single_of_write : (m : JsMap String (FileOp B)) → AllWrites is_write m → AllWrites is_single m
  single_of_write [] w = tt
  single_of_write ((_, write_blob b) ∷ m) (p, w) = (refl, single_of_write m w)
  single_of_write ((_, write_path q b) ∷ m) (p, w) = (refl, single_of_write m w)
  single_of_write ((_, delete_all) ∷ m) (p, w) = absurd (ground arith)
  single_of_write ((_, delete_blob _) ∷ m) (p, w) = absurd (ground arith)
  single_of_write ((_, delete_path _) ∷ m) (p, w) = absurd (ground arith)
  single_of_write ((_, delete_path_prefix _) ∷ m) (p, w) = absurd (ground arith)
  single_of_write ((_, delete_path_range _ _ _) ∷ m) (p, w) = absurd (ground arith)

  pub document-single :
      (m : JsMap String (FileOp B))
      → IsDocumentMap (key hash) is_write m
      → IsDocumentMap (key hash) is_single m
  document-single m w = record {
    unique = w.unique;
    keyed = w.keyed;
    writes = single_of_write m w.writes;
  }

  pub values-Valid : (m : JsMap String (FileOp B)) → AllWrites is_write m → Valid (JsMap.values m)
  values-Valid [] w = tt
  values-Valid ((_, write_blob b) ∷ m) (p, w) = (tt, values-Valid m w)
  values-Valid ((_, write_path q b) ∷ m) (p, w) = (tt, values-Valid m w)
  values-Valid ((_, delete_all) ∷ m) (p, w) = absurd (ground arith)
  values-Valid ((_, delete_blob _) ∷ m) (p, w) = absurd (ground arith)
  values-Valid ((_, delete_path _) ∷ m) (p, w) = absurd (ground arith)
  values-Valid ((_, delete_path_prefix _) ∷ m) (p, w) = absurd (ground arith)
  values-Valid ((_, delete_path_range _ _ _) ∷ m) (p, w) = absurd (ground arith)
