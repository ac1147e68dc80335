-- ===== src/DocServer/Part.antt =====
-- local-modules/@bayou/doc-server/BaseControl.js: where a part of a document is in its file, and what
-- it reads there. The file is an object of file-store/BaseFile.js. The codec is a pair of functions
-- on what is kept, and `other_value` is anything else that text decodes to.
pub mod Calls
pub mod Listing
pub mod Paths
pub mod Log
pub mod Append
pub mod Race
pub mod Stored
pub mod Background
pub mod Ranges
pub mod Init
use Prim.Native.String.{◌++◌}
use bayou.Prelude.{
  ℕ, zero, suc, ◌+◌, ◌-◌, Bool, true, false, Option, none, some, List, [], ◌∷◌, String, Result, ok,
  err, CheckFailure, check_failed, bad_use, bad_value, revision_not_available, ◌>>=◌, ◌>>◌, guard,
  leb, ltb, ◌==◌, nat_eq, string_eq, if◌then◌else◌,
}
use bayou.Prelude.Int.{ℤ, pos, negsuc}
use bayou.JsMap
use bayou.JsMap.{JsMap}
use bayou.Ot.Change.{Change, first}
use bayou.Ot.Snapshot.{Snapshot}
use bayou.FileStore.StoragePath
use bayou.FileStore.Op.{FileOp, op_delete_path_prefix, op_write_path}
use bayou.FileStore.Snapshot.{get, get_or_null, get_path_range, check_path_present}
use bayou.FileStore.BaseFile.{FileImpl}

pub data Value (Op : Type 0) : Type 0 where
  change_value : Change Op → Value Op
  number_value : ℤ → Value Op
  snapshot_value : Snapshot Op → Value Op
  other_value : Value Op

-- `changeClass.check()`
unfoldable pub as_change : {Op : Type 0} → Value Op → Result (Change Op)
as_change (change_value ch) = ok ch
as_change _ = err bad_value

-- `RevisionNumber.check()`
unfoldable pub as_rev_num : {Op : Type 0} → Value Op → Result ℕ
as_rev_num (number_value (pos n)) = ok n
as_rev_num _ = err bad_value

-- `snapshotClass.check()`
unfoldable pub as_snapshot : {Op : Type 0} → Value Op → Result (Snapshot Op)
as_snapshot (snapshot_value s) = ok s
as_snapshot _ = err bad_value

-- What a subclass is, and the file and the codec of an object: the hash of a blob, and its test.
pub record Part (Op B S : Type 0) : Type 0 where
  pub path_prefix : String
  pub ephemeral : Bool
  pub hash : B → String
  pub is_hash : String → Bool
  pub encode : Value Op → B
  pub decode : B → Result (Value Op)
  pub file : FileImpl (FileOp B) S

-- A check of the file's snapshot throws, or returns.
abbrev pub raised : Option CheckFailure → Result (Unit {0})
raised none = ok tt
raised (some failure) = err (check_failed failure)

module _ {Op B S : Type 0} (part : Part Op B S) where
  unfoldable pub change_path_prefix : String
  change_path_prefix = part.path_prefix ++ "/change"

  unfoldable pub revision_number_path : String
  revision_number_path = part.path_prefix ++ "/revision_number"

  unfoldable pub stored_snapshot_path : String
  stored_snapshot_path = part.path_prefix ++ "/snapshot"

  unfoldable pub path_for_change : ℕ → String
  unfolding change_path_prefix
  path_for_change rev_num = StoragePath.indexed change_path_prefix rev_num

  -- `_impl_initOps`
  unfoldable pub impl_init_ops : Result (List (FileOp B))
  unfolding revision_number_path path_for_change
  impl_init_ops = do
    clear ← op_delete_path_prefix part.path_prefix
    number ← op_write_path revision_number_path (part.encode (number_value (pos 0)))
    first_change ← op_write_path (path_for_change 0) (part.encode (change_value first))
    ok (clear ∷ number ∷ first_change ∷ [])

  -- The current revision, as `currentRevNum()` reads it from a snapshot of the file.
  unfoldable pub rev_num_in : Snapshot (FileOp B) → Result ℕ
  unfolding revision_number_path as_rev_num
  rev_num_in snapshot = do
    failure ← check_path_present part.hash part.is_hash snapshot revision_number_path
    raised failure
    encoded ← get part.hash part.is_hash snapshot revision_number_path
    value ← part.decode encoded
    as_rev_num value

  -- The loop of `_getChangeRange()`: the changes that are there, and the numbers of those that are
  -- not and should be.
  unfoldable pub read_changes : JsMap String B → ℕ → ℕ → Bool → Result (List (Change Op) × List ℕ)
  unfolding path_for_change as_change
  read_changes found i zero allow_missing = ok ([], [])
  read_changes found i (suc left) allow_missing = elim (JsMap.get (path_for_change i) found) [
    | some encoded ↦ do
      value ← part.decode encoded
      ch ← as_change value
      (rest, missing) ← read_changes found (i + 1) left false
      ok (ch ∷ rest, missing)
    | none ↦ do
      (rest, missing) ← read_changes found (i + 1) left allow_missing
      ok (rest, if allow_missing then missing else i ∷ missing)
  ]

  -- `_missingChangeError()` is thrown when a change is missing.
  abbrev none_missing : List (Change Op) × List ℕ → Result (List (Change Op))
  none_missing (changes, []) = ok changes
  none_missing (changes, _ ∷ _) = err bad_use

  -- The changes of a range, as `_getChangeRange()` reads them from a snapshot of the file.
  unfoldable pub changes_in : Snapshot (FileOp B) → ℕ → ℕ → Bool → Result (List (Change Op))
  unfolding change_path_prefix read_changes
  changes_in snapshot start end allow_missing = do
    found ← get_path_range part.hash part.is_hash snapshot change_path_prefix start end
    read ← read_changes found start (end - start) allow_missing
    none_missing read

  -- The stored snapshot, as `readStoredSnapshotOrNull()` reads it from a snapshot of the file.
  unfoldable pub stored_snapshot_in : Snapshot (FileOp B) → Result (Option (Snapshot Op))
  unfolding stored_snapshot_path as_snapshot
  stored_snapshot_in snapshot = do
    encoded ← get_or_null part.hash part.is_hash snapshot stored_snapshot_path
    elim encoded [
      | none ↦ ok none
      | some buffer ↦ do value ← part.decode buffer; stored ← as_snapshot value; ok (some stored)
    ]
