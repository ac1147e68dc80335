-- ===== src/FileStore/Snapshot.antt =====
-- local-modules/@bayou/file-store-ot/FileSnapshot.js. The map that the constructor makes of the
-- contents is computed from them where it is read.
pub mod Laws
pub mod Diff
pub mod Ranges
use bayou.Prelude.{
  CheckFailure, path_hash_mismatch, path_not_absent, path_not_present, ℕ, zero, suc, ◌+◌, ◌-◌, ◌≡◌,
  Bool, true, false, not, ◌&&◌, ◌||◌, Option, none, some, List, [], ◌∷◌, ◌++◌, String, string_eq,
  Result, ok, err, wtf, bad_use, bad_value, ◌>>=◌, ◌>>◌, guard, Eq, ◌==◌, nat_eq, leb,
  if◌then◌else◌,
}
use bayou.JsMap
use bayou.JsMap.{JsMap}
use bayou.Ot.Delta.{Delta}
use bayou.Ot.Change.{Change, change}
use bayou.Ot.Snapshot
use bayou.Ot.Snapshot.{Snapshot}
use bayou.FileStore.StoragePath
use bayou.FileStore.Op.{
  FileOp, delete_all, delete_blob, delete_path, delete_path_prefix, delete_path_range, write_blob,
  write_path, op_equals, op_delete_path,
}
use bayou.FileStore.Delta.{file_class}

-- `found ? found.props.blob : null`
abbrev pub blob_of : {B : Type 0} → Option (FileOp B) → Option B
blob_of (some (write_blob b)) = some b
blob_of (some (write_path _ b)) = some b
blob_of _ = none

module _ {B : Type 0} (hash : B → String) where
  -- The loop of the constructor.
  unfoldable pub build :
      JsMap String (FileOp B) → Delta (FileOp B) → Result (JsMap String (FileOp B))
  build m [] = ok m
  build m (write_blob b ∷ ops) = build (JsMap.set (hash b) (write_blob b) m) ops
  build m (write_path p b ∷ ops) = build (JsMap.set p (write_path p b) m) ops
  build m (_ ∷ ops) = err wtf

  unfoldable pub values_of : Snapshot (FileOp B) → Result (JsMap String (FileOp B))
  unfolding build
  values_of s = build [] s.contents

  -- `entries()`
  unfoldable pub entries : Delta (FileOp B) → Result (JsMap String B)
  entries [] = ok []
  entries (write_blob b ∷ ops) = do rest ← entries ops; ok ((hash b, b) ∷ rest)
  entries (write_path p b ∷ ops) = do rest ← entries ops; ok ((p, b) ∷ rest)
  entries (_ ∷ ops) = err wtf

-- `StorageId.check()`
unfoldable pub check_id : (String → Bool) → String → Result String
check_id is_hash id = if StoragePath.is_instance id || is_hash id then ok id else err bad_value

module _ {B : Type 0} (hash : B → String) (is_hash : String → Bool) where
  unfoldable pub get_or_null : Snapshot (FileOp B) → String → Result (Option B)
  unfolding values_of check_id
  get_or_null s id = do
    checked ← check_id is_hash id
    m ← values_of hash s
    ok (blob_of (JsMap.get checked m))

  unfoldable pub get : Snapshot (FileOp B) → String → Result B
  unfolding get_or_null
  get s id = do found ← get_or_null s id; elim found [ some b ↦ ok b | none ↦ err bad_use ]

  -- The loop of `getPathPrefix()` over the entries.
  unfoldable pub select_prefix : String → JsMap String B → JsMap String B → Result (JsMap String B)
  select_prefix prefix [] result = ok result
  select_prefix prefix ((id, blob) ∷ es) result = do
    hit ← if StoragePath.is_instance id then StoragePath.is_prefix_or_same prefix id else ok false
    select_prefix prefix es (if hit then JsMap.set id blob result else result)

  unfoldable pub get_path_prefix : Snapshot (FileOp B) → String → Result (JsMap String B)
  unfolding select_prefix entries
  get_path_prefix s prefix = do
    checked ← StoragePath.check prefix
    es ← entries hash s.contents
    select_prefix checked es []

  -- The loop of `getPathRange()`, over the indexes that are left.
  unfoldable pub select_range :
      Snapshot (FileOp B) → String → ℕ → ℕ → JsMap String B → Result (JsMap String B)
  unfolding get_or_null
  select_range s prefix n zero result = ok result
  select_range s prefix n (suc left) result = do
    got ← get_or_null s (StoragePath.indexed prefix n)
    select_range s prefix (n + 1) left
        (elim got [ some b ↦ JsMap.set (StoragePath.indexed prefix n) b result | none ↦ result ])

  unfoldable pub get_path_range : Snapshot (FileOp B) → String → ℕ → ℕ → Result (JsMap String B)
  unfolding select_range
  get_path_range s prefix from until = do
    checked ← StoragePath.check prefix
    guard (leb (from + 1) until) bad_value
    select_range s checked from (until - from) []

  -- The result of a check, which returns, or throws one of the errors of `CheckFailure`: these are a
  -- value here, apart from the other errors, since the callers catch them by their names.
  unfoldable pub check_path_is :
      Snapshot (FileOp B) → String → String → Result (Option CheckFailure)
  unfolding get_or_null
  check_path_is s path expected = do
    checked ← StoragePath.check path
    guard (is_hash expected) bad_value
    found ← get_or_null s checked
    ok (elim found [
      | some b ↦ if hash b == expected then none else some path_hash_mismatch
      | none ↦ some path_hash_mismatch
    ])

  unfoldable pub check_path_absent : Snapshot (FileOp B) → String → Result (Option CheckFailure)
  unfolding get_or_null
  check_path_absent s path = do
    checked ← StoragePath.check path
    found ← get_or_null s checked
    ok (elim found [ none ↦ none | some _ ↦ some path_not_absent ])

  unfoldable pub check_path_present : Snapshot (FileOp B) → String → Result (Option CheckFailure)
  unfolding get_or_null
  check_path_present s path = do
    checked ← StoragePath.check path
    found ← get_or_null s checked
    ok (elim found [ some _ ↦ none | none ↦ some path_not_present ])

  -- `checkPathIsNot()` returns its test, and throws only for bad arguments.
  unfoldable pub check_path_is_not : Snapshot (FileOp B) → String → String → Result Bool
  unfolding get_or_null
  check_path_is_not s path unexpected = do
    checked ← StoragePath.check path
    guard (is_hash unexpected) bad_value
    found ← get_or_null s checked
    ok (elim found [ none ↦ true | some b ↦ not (hash b == unexpected) ])

module _ {B : Type 0} (hash : B → String) ⦃e : Eq B⦄ where
  -- `op.equals(x)`, where `x` may be `undefined`.
  abbrev pub same_op : FileOp B → Option (FileOp B) → Bool
  same_op op none = false
  same_op op (some o) = op_equals op o

  -- The first loop of `_impl_diffAsDelta()`: what is new or has changed.
  unfoldable pub changed_ops : JsMap String (FileOp B) → JsMap String (FileOp B) → Delta (FileOp B)
  changed_ops older [] = []
  changed_ops older ((id, op) ∷ newer) =
      let rest = changed_ops older newer in
      if same_op op (JsMap.get id older) then rest else op ∷ rest

  -- The second loop: what is gone. `checkHash()` stands in `op_deleteBlob()`.
  unfoldable pub removed_ops :
      (String → Bool)
      → JsMap String (FileOp B)
      → JsMap String (FileOp B)
      → Result (Delta (FileOp B))
  removed_ops is_hash newer [] = ok []
  removed_ops is_hash newer ((id, _) ∷ older) = elim (JsMap.get id newer) [
    | some _ ↦ removed_ops is_hash newer older
    | none ↦ do
      op ←
          if StoragePath.is_instance id
          then op_delete_path id
          else (guard (is_hash id) bad_value >> ok (delete_blob id))
      rest ← removed_ops is_hash newer older
      ok (op ∷ rest)
  ]

  unfoldable pub impl_diff_as_delta :
      (String → Bool) → Snapshot (FileOp B) → Snapshot (FileOp B) → Result (Delta (FileOp B))
  unfolding values_of changed_ops removed_ops
  impl_diff_as_delta is_hash s newer = do
    this_values ← values_of hash s
    newer_values ← values_of hash newer
    removed ← removed_ops is_hash newer_values this_values
    ok (changed_ops this_values newer_values ++ removed)

  unfoldable pub diff :
      (B → ℕ)
      → (String → Bool)
      → Snapshot (FileOp B)
      → Snapshot (FileOp B)
      → Result (Change (FileOp B))
  unfolding impl_diff_as_delta
  diff size is_hash s newer =
      Snapshot.diff (file_class hash size) (impl_diff_as_delta is_hash) s newer

  -- The loop of `equals()`.
  unfoldable pub all_same : JsMap String (FileOp B) → JsMap String (FileOp B) → Bool
  all_same [] other = true
  all_same ((id, op) ∷ m) other =
      if same_op op (JsMap.get id other) then all_same m other else false

  unfoldable pub equals : Snapshot (FileOp B) → Snapshot (FileOp B) → Result Bool
  unfolding values_of all_same
  equals s t = do
    this_values ← values_of hash s
    other_values ← values_of hash t
    ok (
        (s.rev_num == t.rev_num)
        && (JsMap.size this_values == JsMap.size other_values)
        && all_same this_values other_values)
