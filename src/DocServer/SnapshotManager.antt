-- ===== src/DocServer/SnapshotManager.antt =====
-- local-modules/@bayou/doc-server/SnapshotManager.js. A call runs to its end before the next; a
-- promise in the cache is what it resolves to or is rejected with. Logging is left out.
pub mod Cache
pub mod Reading
pub mod Dated
pub mod Serving
use bayou.Prelude.{
  ℕ, zero, suc, ◌+◌, Bool, true, false, Option, none, some, List, [], Result, ok, err, Failure,
  revision_not_available, ◌>>=◌ as bind, ◌==◌, nat_eq, if◌then◌else◌,
}
use bayou.JsMap
use bayou.JsMap.{JsMap}
use bayou.Ot.Delta
use bayou.Ot.Delta.{DeltaClass}
use bayou.Ot.Change.{Change}
use bayou.Ot.Snapshot
use bayou.Ot.Snapshot.{Snapshot}
use bayou.FileStore.BaseFile.{Call, ◌>>=◌, ◌>>◌, return}
use bayou.DocServer.BaseControl.{ChangeRange, lift, get_composed_changes}
use bayou.DocServer.Part.{Part}
use bayou.DocServer.Part.Calls.{get_change_range, get_change, read_stored_snapshot_or_null}

-- The object, and the state of its file. `retrieved` is the rejected promise that
-- `_storedSnapshotRetrieved` keeps.
pub record SnapshotManager (Op S : Type 0) : Type 0 where
  pub snapshots : JsMap ℕ (Result (Snapshot Op))
  pub retrieved : Option Failure
  pub file : S

module _ {Op S : Type 0} where
  -- The constructor.
  abbrev pub new : S → SnapshotManager Op S
  new file = record { snapshots = []; retrieved = none; file = file }

  unfoldable pub clear : SnapshotManager Op S → SnapshotManager Op S
  clear m = record m { snapshots = [] }

  abbrev pub on_file : {A : Type 0} → Call S A → Call (SnapshotManager Op S) A
  on_file call m = ((call m.file).0, record m { file = (call m.file).1 })

  abbrev pub set_snapshot : ℕ → Result (Snapshot Op) → Call (SnapshotManager Op S) (Unit {0})
  set_snapshot rev_num result m =
      (ok tt, record m { snapshots = JsMap.set rev_num result m.snapshots })

-- The loop of `getSnapshot()`: the newest promise at a revision or before it, with its revision.
unfoldable pub newest : {V : Type 0} → JsMap ℕ V → ℕ → Option (ℕ × V)
newest m zero = elim (JsMap.get 0 m) [ some v ↦ some (0, v) | none ↦ none ]
newest m (suc i) =
    let rest = newest m i in elim (JsMap.get (suc i) m) [ some v ↦ some (suc i, v) | none ↦ rest ]

-- The `catch` clause of `_makeSnapshot0()`: whether the change is there.
abbrev pub is_available : {S A : Type 0} → Result A × S → Result Bool × S
is_available (ok _, t) = (ok true, t)
is_available (err revision_not_available, t) = (ok false, t)
is_available (err failure, t) = (err failure, t)

module _ {Op B S : Type 0} (class : DeltaClass Op) (part : Part Op B S) where
  -- `_getChangeRange()`, with no change missing.
  abbrev pub whole_range : ChangeRange Op S
  whole_range start end = get_change_range part start end false

  -- `_makeSnapshot()`
  unfoldable pub make_snapshot : ℕ → Result (Snapshot Op) → Call S (Snapshot Op)
  make_snapshot rev_num promise = do
    base ← lift promise
    contents ←
        get_composed_changes class whole_range base.contents (base.rev_num + 1) (rev_num + 1) true
    lift (Snapshot.make class rev_num contents)

  -- `_makeSnapshot0()`, when the map has no snapshot 0.
  unfoldable pub compose_first : Call (SnapshotManager Op S) (Unit {0})
  compose_first = do
    there ← on_file (λ s. is_available (get_change part 0 s))
    if there
        then (do
          contents ← on_file (get_composed_changes class whole_range [] 0 1 true)
          snapshot ← lift (Snapshot.make class 0 contents)
          set_snapshot 0 (ok snapshot))
        else return tt

  unfoldable pub make_snapshot_0 : Call (SnapshotManager Op S) (Unit {0})
  make_snapshot_0 m = if JsMap.has 0 m.snapshots then (ok tt, m) else compose_first m

  abbrev pub keep_stored : Option (Snapshot Op) → Call (SnapshotManager Op S) (Unit {0})
  keep_stored none = return tt
  keep_stored (some stored) = set_snapshot stored.rev_num (ok stored)

  -- What `_storedSnapshotRetrieved` is a promise of.
  unfoldable pub retrieve : Call (SnapshotManager Op S) (Unit {0})
  retrieve = do
    stored ← on_file (read_stored_snapshot_or_null part)
    keep_stored stored
    make_snapshot_0

  abbrev pub keep_rejected :
      Result (Unit {0}) × SnapshotManager Op S → Result (Unit {0}) × SnapshotManager Op S
  keep_rejected (ok _, t) = (ok tt, t)
  keep_rejected (err failure, t) = (err failure, record t { retrieved = some failure })

  -- The start of `getSnapshot()`, for an empty map.
  unfoldable pub prepare : Call (SnapshotManager Op S) (Unit {0})
  prepare m =
      if JsMap.size m.snapshots == 0
      then elim m.retrieved [ some failure ↦ (err failure, m) | none ↦ keep_rejected (retrieve m) ]
      else (ok tt, m)

  abbrev pub found : Result (Snapshot Op) → Result (Option (Snapshot Op))
  found result = bind result λ snapshot. ok (some snapshot)

  -- Behind the loop: the promise that it found, and a new one behind that.
  unfoldable pub from_base : ℕ → Call (SnapshotManager Op S) (Option (Snapshot Op))
  from_base rev_num m = elim (newest m.snapshots rev_num) [
    | none ↦ (ok none, m)
    | some (base_rev_num, promise) ↦ if base_rev_num == rev_num then (found promise, m) else (
      found (make_snapshot rev_num promise m.file).0,
      record m {
        snapshots = JsMap.set rev_num (make_snapshot rev_num promise m.file).0 m.snapshots;
        file = (make_snapshot rev_num promise m.file).1;
      },
    )
  ]

  unfoldable pub get_snapshot : ℕ → Call (SnapshotManager Op S) (Option (Snapshot Op))
  get_snapshot rev_num = prepare >> from_base rev_num
