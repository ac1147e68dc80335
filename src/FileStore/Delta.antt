-- ===== src/FileStore/Delta.antt =====
-- local-modules/@bayou/file-store-ot/FileDelta.js. The set of deletions is a list in the order of
-- the calls of `add()`: the model does not tell whether two operations are one object.
pub mod Meaning
pub mod Turns
pub mod Documents
pub mod Laws
use bayou.Prelude.{
  ℕ, zero, suc, ◌+◌, ◌-◌, Bool, true, false, not, List, [], ◌∷◌, ◌++◌, Result, ok, ◌>>=◌, String,
  string_eq, Eq, if◌then◌else◌, map, length,
}
use Prim.Native.String.{count}
use bayou.JsMap
use bayou.JsMap.{JsMap}
use bayou.Ot.Delta.{Delta, DeltaClass}
use bayou.FileStore.StoragePath
use bayou.FileStore.Op.{
  FileOp, delete_all, delete_blob, delete_path, delete_path_prefix, delete_path_range, write_blob,
  write_path, op_equals,
}

-- `opMap` and `deleteSet`.
pub record Composing (B : Type 0) : Type 0 where
  pub op_map : JsMap String (FileOp B)
  pub delete_set : List (FileOp B)

abbrev pub start : {B : Type 0} → Composing B
start = record { op_map = []; delete_set = [] }

-- `StoragePath.isInstance(id) && StoragePath.isPrefixOrSame(prefix, id)`
unfoldable pub hits : String → String → Result Bool
hits prefix id =
    if StoragePath.is_instance id then StoragePath.is_prefix_or_same prefix id else ok false

module _ {B : Type 0} where
  -- The loop of `deletePathPrefix` over the keys.
  unfoldable pub delete_hits :
      String → List String → JsMap String (FileOp B) → Result (JsMap String (FileOp B))
  delete_hits prefix [] m = ok m
  delete_hits prefix (id ∷ ids) m = do
    hit ← hits prefix id
    delete_hits prefix ids (if hit then JsMap.delete id m else m)

  -- The loop of `deletePathRange`, over the indexes that are left.
  unfoldable pub delete_indexes : String → ℕ → ℕ → JsMap String (FileOp B) → JsMap String (FileOp B)
  delete_indexes prefix n zero m = m
  delete_indexes prefix n (suc left) m =
      delete_indexes prefix (n + 1) left (JsMap.delete (StoragePath.indexed prefix n) m)

  -- `_composeResult()`; without tracking there is no set.
  unfoldable pub compose_result : Bool → Composing B → Delta (FileOp B)
  compose_result track st =
      if track then st.delete_set ++ JsMap.values st.op_map else JsMap.values st.op_map

module _ {B : Type 0} (hash : B → String) where
  -- One turn of the loop of `_composeOne()`.
  unfoldable pub compose_op : Bool → Composing B → FileOp B → Result (Composing B)
  compose_op track st delete_all =
      ok (record { op_map = []; delete_set = if track then delete_all ∷ [] else st.delete_set })
  compose_op track st (delete_blob hash) = ok (record st {
    op_map =
        if track then JsMap.set hash (delete_blob hash) st.op_map else JsMap.delete hash st.op_map;
  })
  compose_op track st (delete_path path) = ok (record st {
    op_map =
        if track then JsMap.set path (delete_path path) st.op_map else JsMap.delete path st.op_map;
  })
  compose_op track st (delete_path_prefix prefix) = do
    kept ← delete_hits prefix (JsMap.keys st.op_map) st.op_map
    ok (record {
      op_map = kept;
      delete_set = if track then st.delete_set ++ delete_path_prefix prefix ∷ [] else st.delete_set;
    })
  compose_op track st (delete_path_range prefix from until) = ok (record {
    op_map = delete_indexes prefix from (until - from) st.op_map;
    delete_set =
        if track then st.delete_set ++ delete_path_range prefix from until ∷ [] else st.delete_set;
  })
  compose_op track st (write_path path blob) =
      ok (record st { op_map = JsMap.set path (write_path path blob) st.op_map })
  compose_op track st (write_blob blob) =
      ok (record st { op_map = JsMap.set (hash blob) (write_blob blob) st.op_map })

  unfoldable pub compose_one : Bool → Composing B → Delta (FileOp B) → Result (Composing B)
  compose_one track st [] = ok st
  compose_one track st (op ∷ ops) = do next ← compose_op track st op; compose_one track next ops

  -- The loop of `_impl_composeAll()`.
  unfoldable pub compose_each : Bool → Composing B → List (Delta (FileOp B)) → Result (Composing B)
  compose_each track st [] = ok st
  compose_each track st (d ∷ ds) = do next ← compose_one track st d; compose_each track next ds

  unfoldable pub impl_compose :
      Delta (FileOp B) → Delta (FileOp B) → Bool → Result (Delta (FileOp B))
  impl_compose this other want_document = do
    first ← compose_one (not want_document) start this
    second ← compose_one (not want_document) first other
    ok (compose_result (not want_document) second)

  unfoldable pub impl_compose_all :
      Delta (FileOp B) → List (Delta (FileOp B)) → Bool → Result (Delta (FileOp B))
  impl_compose_all this deltas want_document = do
    first ← compose_one (not want_document) start this
    last ← compose_each (not want_document) first deltas
    ok (compose_result (not want_document) last)

  -- The loop of `_impl_isDocument()`, over the set of the IDs that were met.
  unfoldable pub is_document_from : JsMap String (Unit {0}) → Delta (FileOp B) → Bool
  is_document_from ids [] = true
  is_document_from ids (write_blob blob ∷ ops) =
      if JsMap.has (hash blob) ids
      then false
      else is_document_from (JsMap.set (hash blob) tt ids) ops
  is_document_from ids (write_path path blob ∷ ops) =
      if JsMap.has path ids then false else is_document_from (JsMap.set path tt ids) ops
  is_document_from ids (_ ∷ ops) = false

  unfoldable pub impl_is_document : Delta (FileOp B) → Bool
  unfolding is_document_from
  impl_is_document ops = is_document_from [] ops

  -- `_impl_roughSize` of an operation: the lengths of its parts.
  unfoldable pub op_rough_size : (B → ℕ) → FileOp B → ℕ
  op_rough_size size delete_all = 9 + 10
  op_rough_size size (delete_blob h) = 10 + 10 + count h
  op_rough_size size (delete_path p) = 10 + 10 + count p
  op_rough_size size (delete_path_prefix p) = 16 + 10 + count p
  op_rough_size size (delete_path_range p _ _) = 15 + 10 + count p
  op_rough_size size (write_blob b) = 9 + 10 + size b
  op_rough_size size (write_path p b) = 9 + 10 + count p + size b

  abbrev pub file_class : ⦃e : Eq B⦄ → (B → ℕ) → DeltaClass (FileOp B)
  file_class size = record {
    impl_compose = impl_compose;
    impl_compose_all = impl_compose_all;
    impl_is_document = impl_is_document;
    op_equals = op_equals;
    op_rough_size = op_rough_size size;
  }
