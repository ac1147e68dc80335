-- ===== src/Tests/Updates.antt =====
-- local-modules/@bayou/doc-server at a concrete document, whose file is the list of its changes behind
-- the first.
use bayou.Prelude.{
  ℕ, suc, ◌-◌, ◌≡◌, refl, true, false, Option, none, some, List, [], ◌∷◌, ◌++◌, length, take, drop,
  ok, err, bad_value, String, ◌==◌, nat_eq, string_eq, if◌then◌else◌,
}
use bayou.JsMap
use bayou.Ot.Delta
use bayou.Ot.Delta.{Delta, is_empty}
use bayou.Ot.Change.{Change, change}
use bayou.Ot.Snapshot
use bayou.Ot.Snapshot.{Snapshot, empty, compose}
use bayou.Ot.Snapshot.Chunks.{compose_each}
use bayou.Doc.Property.Op.{PropertyOp, set, op_equals}
use bayou.Doc.Property.Delta.{impl_compose, impl_is_document, property_class}
use bayou.Doc.Property.Snapshot.{impl_diff_as_delta}
use bayou.FileStore.BaseFile.{Call}
use bayou.DocServer.BaseControl.{
  Control, attempt_update, append_rebased, get_composed_changes, compose_rounds,
}
use bayou.DocServer.PropertyControl.{impl_rebase}

abbrev Log : Type 0
Log = List (Change (PropertyOp ℕ))

abbrev snapshot_of : Option ℕ → Call Log (Snapshot (PropertyOp ℕ))
snapshot_of none log = (compose_each property_class empty log, log)
snapshot_of (some r) log = (compose_each property_class empty (take r log), log)

abbrev control : Control (PropertyOp ℕ) Log
control = record {
  get_snapshot = snapshot_of;
  append_change = λ ch log.
      if is_empty ch.delta
      then (err bad_value, log)
      else if ch.rev_num == suc (length log)
      then (ok true, log ++ (ch ∷ []))
      else (ok false, log);
  get_change_range = λ start end log. (ok (take (end - start) (drop (start - 1) log)), log);
  impl_diff_as_delta = impl_diff_as_delta;
  impl_validate_change = λ ch base. ok tt;
}

abbrev put : String → ℕ → PropertyOp ℕ
put name value = set (record { name = name; value = value })

abbrev log : Log
log = change 1 (put "a" 0 ∷ []) ∷ change 2 (put "a" 2 ∷ put "b" 3 ∷ []) ∷ []

abbrev base : Snapshot (PropertyOp ℕ)
base = record { rev_num = 1; contents = put "a" 0 ∷ [] }

abbrev current : Snapshot (PropertyOp ℕ)
current = record { rev_num = 2; contents = put "a" 2 ∷ put "b" 3 ∷ [] }

abbrev expected : Snapshot (PropertyOp ℕ)
expected = record { rev_num = 2; contents = put "a" 1 ∷ put "c" 7 ∷ [] }

abbrev contents : Delta (PropertyOp ℕ)
contents = put "a" 2 ∷ put "c" 7 ∷ put "b" 3 ∷ []

abbrev ch : Change (PropertyOp ℕ)
ch = change 2 (put "a" 1 ∷ put "c" 7 ∷ [])

abbrev lost : Change (PropertyOp ℕ)
lost = change 2 (put "a" 1 ∷ [])

abbrev lost_expected : Snapshot (PropertyOp ℕ)
lost_expected = record { rev_num = 2; contents = put "a" 1 ∷ [] }

-- Where the changes since overwrite all of a change, the correction is empty, at the current
-- revision, though the expected snapshot is not that revision's.
lost_correction :
    attempt_update property_class control (impl_rebase control) lost base lost_expected log
    ≡ (ok (some (change 2 [])), log)
unfolding attempt_update append_rebased get_composed_changes compose_rounds impl_rebase
    Snapshot.diff Snapshot.make compose_each compose is_empty Delta.compose_all Delta.compose
    Delta.equals impl_is_document impl_compose impl_diff_as_delta JsMap.set JsMap.has JsMap.get
    op_equals
lost_correction = refl
