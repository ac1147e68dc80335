-- ===== src/DocServer/Part/Calls.antt =====
-- local-modules/@bayou/doc-server/BaseControl.js: its calls on the file. Each reads a snapshot of the
-- file, and goes on with that one. Storing a snapshot behind an append is not awaited in the code;
-- here it is done before the append returns. Logging is left out.
use bayou.Prelude.{
  ℕ, zero, suc, ◌+◌, ◌-◌, ◌%◌, Bool, true, false, not, Option, none, some, List, [], ◌∷◌, Result,
  ok, err, CheckFailure, path_hash_mismatch, path_not_absent, path_not_present, check_failed,
  bad_use, bad_value, revision_not_available, ◌>>=◌ as bind, leb, ltb, ◌==◌, nat_eq, if◌then◌else◌,
}
use bayou.Prelude.Int.{ℤ, pos, negsuc}
use bayou.Ot.Delta.{is_empty}
use bayou.Ot.Change.{Change, change}
use bayou.Ot.Snapshot.{Snapshot}
use bayou.FileStore.Op.{FileOp, op_delete_path_range, op_write_path}
use bayou.FileStore.Snapshot.{get_or_null, check_path_is, check_path_absent}
use bayou.FileStore.BaseFile
use bayou.FileStore.BaseFile.{Call, ◌>>=◌, ◌>>◌, return, throw, check_that, or_not_available}
use bayou.DocServer.BaseControl.{lift, max_change_reads_per_iteration}
use bayou.DocServer.Part.{
  Part, number_value, change_value, snapshot_value, change_path_prefix, revision_number_path,
  stored_snapshot_path, path_for_change, rev_num_in, changes_in, stored_snapshot_in,
}

-- `CHANGES_PER_STORED_SNAPSHOT`
abbrev pub changes_per_stored_snapshot : ℕ
changes_per_stored_snapshot = 1000

-- `revNum - 1`
abbrev pub base_rev_num : ℕ → ℤ
base_rev_num zero = negsuc zero
base_rev_num (suc n) = pos n

-- A call whose errors are logged.
abbrev pub caught : {S : Type 0} → Call S (Unit {0}) → Call S (Unit {0})
caught call s = (ok tt, (call s).1)

module _ {Op B S : Type 0} (part : Part Op B S) where
  unfoldable pub current_rev_num : Call S ℕ
  current_rev_num = do
    snapshot ← BaseFile.get_snapshot part.file none
    lift (rev_num_in part snapshot)

  -- `_checkRevNumRange()`
  unfoldable pub check_rev_num_range : ℕ → ℕ → Call S (Unit {0})
  check_rev_num_range start end = do
    check_that (leb start end) bad_value
    current ← current_rev_num
    check_that (leb end (current + 1)) bad_value

  -- `_getChangeRange()`, behind the check of the range.
  unfoldable pub read_change_range : ℕ → ℕ → Bool → Call S (List (Change Op))
  read_change_range start end allow_missing =
      if start == end
      then return []
      else if ltb max_change_reads_per_iteration (end - start)
      then throw bad_use
      else (do
        snapshot ← BaseFile.get_snapshot part.file none
        lift (changes_in part snapshot start end allow_missing))

  unfoldable pub get_change_range : ℕ → ℕ → Bool → Call S (List (Change Op))
  get_change_range start end allow_missing =
      check_rev_num_range start end >> read_change_range start end allow_missing

  abbrev pub first_available : List (Change Op) → Call S (Change Op)
  first_available [] = throw revision_not_available
  first_available (ch ∷ _) = return ch

  unfoldable pub get_change : ℕ → Call S (Change Op)
  get_change rev_num = do
    changes ← get_change_range rev_num (rev_num + 1) true
    first_available changes

  unfoldable pub read_stored_snapshot_or_null : Call S (Option (Snapshot Op))
  read_stored_snapshot_or_null = do
    snapshot ← BaseFile.get_snapshot part.file none
    lift (stored_snapshot_in part snapshot)

  -- The operations that append a change, and the checks on the file's snapshot before that.
  unfoldable pub change_ops : Change Op → Result (List (FileOp B))
  change_ops ch =
      bind (op_write_path (path_for_change part ch.rev_num) (part.encode (change_value ch)))
        λ store.
          bind
            (op_write_path (revision_number_path part)
              (part.encode (number_value (pos ch.rev_num))))
            λ count. ok (store ∷ count ∷ [])

  unfoldable pub append_checks : ℕ → Snapshot (FileOp B) → Result (Option CheckFailure)
  append_checks rev_num snapshot =
      bind
        (check_path_is part.hash part.is_hash snapshot (revision_number_path part)
          (part.hash (part.encode (number_value (base_rev_num rev_num)))))
        λ failure. elim failure [
          | some f ↦ ok (some f)
          | none ↦ check_path_absent part.hash part.is_hash snapshot (path_for_change part rev_num)
        ]

  -- The `catch` clause: a lost race, whose change is read for the log.
  unfoldable pub lost : ℕ → Snapshot (FileOp B) → CheckFailure → Result Bool
  lost rev_num snapshot path_hash_mismatch = ok false
  lost rev_num snapshot path_not_absent =
      bind (get_or_null part.hash part.is_hash snapshot (path_for_change part rev_num)) λ found.
        elim found [
          | none ↦ ok false
          | some encoded ↦ bind (part.decode encoded) λ logged. ok false
        ]
  lost rev_num snapshot path_not_present = err (check_failed path_not_present)

  unfoldable pub snapshot_ops : Snapshot Op → Result (List (FileOp B))
  snapshot_ops snapshot =
      let delete_before =
        if part.ephemeral then snapshot.rev_num - changes_per_stored_snapshot else 0 in
      bind (op_write_path (stored_snapshot_path part) (part.encode (snapshot_value snapshot)))
        λ store.
          if delete_before == 0
          then ok (store ∷ [])
          else bind (op_delete_path_range (change_path_prefix part) 0 delete_before)
              λ clear. ok (store ∷ clear ∷ [])

  -- `_writeStoredSnapshot()`
  unfoldable pub write_stored_snapshot : Snapshot Op → Call S (Unit {0})
  write_stored_snapshot snapshot = do
    ops ← lift (snapshot_ops snapshot)
    file_rev_num ← BaseFile.current_rev_num part.file
    success ← BaseFile.append_change part.file (change (file_rev_num + 1) ops)
    return tt

  module _ (impl_get_snapshot : ℕ → Call S (Option (Snapshot Op))) where
    unfoldable pub get_snapshot : Option ℕ → Call S (Snapshot Op)
    get_snapshot rev_num = do
      current ← current_rev_num
      checked ← BaseFile.rev_num_or_current part.file rev_num current
      found ← impl_get_snapshot checked
      or_not_available found

    -- `_maybeWriteStoredSnapshot()`
    unfoldable pub maybe_write_stored_snapshot : ℕ → Call S (Unit {0})
    maybe_write_stored_snapshot rev_num =
        if rev_num % changes_per_stored_snapshot == 0
        then caught (do snapshot ← get_snapshot (some rev_num); write_stored_snapshot snapshot)
        else return tt

    -- What `appendChange()` does with the snapshot of the file that it has read, which others may
    -- since have changed.
    unfoldable pub append_seen : Change Op → List (FileOp B) → Snapshot (FileOp B) → Call S Bool
    append_seen ch ops snapshot = do
      failure ← lift (append_checks ch.rev_num snapshot)
      elim failure [
        | some f ↦ lift (lost ch.rev_num snapshot f)
        | none ↦ do
          result ← BaseFile.append_change part.file (change (snapshot.rev_num + 1) ops)
          maybe_write_stored_snapshot ch.rev_num
          return result
      ]

    unfoldable pub append_change : Change Op → Call S Bool
    append_change ch = do
      check_that (not (is_empty ch.delta)) bad_value
      ops ← lift (change_ops ch)
      snapshot ← BaseFile.get_snapshot part.file none
      append_seen ch ops snapshot
