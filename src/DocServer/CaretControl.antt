-- ===== src/DocServer/CaretControl.antt =====
-- local-modules/@bayou/doc-server/CaretControl.js. What the clock says is an argument. The check for
-- idle carets, which runs on its own in the code, is a call here. Logging is left out.
pub mod Removal
pub mod Idle
use bayou.Prelude.{
  ℕ, suc, ◌+◌, ◌*◌, ◌-◌, ◌/◌, ◌≡◌, Bool, true, false, Option, none, some, List, [], map, ◌∷◌,
  String, Result, ok, ◌>>=◌ as bind, leb, ◌==◌, nat_eq, if◌then◌else◌,
}
use bayou.Prelude.Int.{negsuc}
use bayou.Ot.Change.{Change, with_timestamp}
use bayou.Ot.Timestamp
use bayou.Ot.Timestamp.{Timestamp, Comparison, greater}
use bayou.Ot.Snapshot
use bayou.Ot.Snapshot.{Snapshot}
use bayou.Doc.Caret.{Caret, check_id}
use bayou.Doc.Caret.Op.{CaretOp, add}
use bayou.Doc.Caret.Delta.{caret_class}
use bayou.Doc.Caret.Snapshot as CaretSnapshot
use bayou.FileStore.BaseFile.{Call, ◌>>=◌, return}
use bayou.DocServer.BaseControl.{Control, Rebase, lift, get_composed_changes, update}
use bayou.DocServer.Part.Calls.{caught}

-- `MAX_CARET_IDLE_MSEC`
abbrev pub max_caret_idle_msec : ℕ
max_caret_idle_msec = 5 * 60 * 1000

-- `minTime.compareTo(caret.lastActive) > 0`
unfoldable pub is_idle : Timestamp → Caret → Bool
is_idle min_time c = elim (Timestamp.compare_to min_time c.last_active) [
  | greater ↦ true
  | _ ↦ false
]

-- The loop of `_removeIdleCarets()`, with the new snapshot and the count so far.
unfoldable pub remove_idle :
    Timestamp → List Caret → Snapshot CaretOp → ℕ → Result (Snapshot CaretOp × ℕ)
unfolding is_idle
remove_idle min_time [] newer count = ok (newer, count)
remove_idle min_time (c ∷ cs) newer count =
    if is_idle min_time c
    then (bind (CaretSnapshot.without_caret newer c.id)
        λ smaller. remove_idle min_time cs smaller (count + 1))
    else remove_idle min_time cs newer count

-- The change that `_removeIdleCarets()` makes of the snapshot, or none if no caret is idle.
unfoldable pub idle_change : Timestamp → Snapshot CaretOp → Result (Option (Change CaretOp))
unfolding remove_idle CaretSnapshot.entries
idle_change now snapshot =
    bind (Timestamp.add_msec now (negsuc (max_caret_idle_msec - 1))) λ min_time.
      bind (CaretSnapshot.entries snapshot.contents) λ carets.
        bind (remove_idle min_time carets snapshot 0) λ removed.
          if removed.1 == 0
          then ok none
          else bind (Snapshot.with_rev_num caret_class removed.0 (snapshot.rev_num + 1)) λ newer.
            bind (CaretSnapshot.diff snapshot newer) λ ch. ok (some (with_timestamp ch (some now)))

module _ {S : Type 0} (control : Control CaretOp S) where
  -- `_impl_rebase()`
  unfoldable pub impl_rebase : Rebase CaretOp S
  impl_rebase ch base expected current = do
    final_contents ←
        get_composed_changes caret_class control.get_change_range expected.contents
          (base.rev_num + 1) (current.rev_num + 1) true
    final ← lift (Snapshot.make caret_class (current.rev_num + 1) final_contents)
    difference ← lift (Snapshot.diff caret_class control.impl_diff_as_delta current final)
    return (record difference { timestamp = ch.timestamp; author_id = ch.author_id })

  -- `_removeIdleCarets()`, for what the timeout of its update allows.
  unfoldable pub remove_idle_carets : ℕ → Timestamp → Call S (Unit {0})
  unfolding idle_change impl_rebase
  remove_idle_carets allowed now = do
    snapshot ← control.get_snapshot none
    found ← lift (idle_change now snapshot)
    elim found [
      | none ↦ return tt
      | some ch ↦
          caught (do correction ← update caret_class control impl_rebase allowed ch; return tt)
    ]

  unfoldable pub change_for_update : Timestamp → String → ℕ → ℕ → ℕ → Call S (Change CaretOp)
  change_for_update now caret_id doc_rev_num index length = do
    checked ← lift (check_id caret_id)
    snapshot ← control.get_snapshot none
    old_caret ← lift (CaretSnapshot.get snapshot caret_id)
    return (record {
      rev_num = snapshot.rev_num + 1;
      delta =
          add (record old_caret {
            rev_num = doc_rev_num;
            last_active = now;
            index = index;
            length = length;
          })
          ∷ [];
      timestamp = some now;
      author_id = none;
    })
