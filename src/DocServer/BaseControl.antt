-- ===== src/DocServer/BaseControl.antt =====
-- local-modules/@bayou/doc-server/BaseControl.js: its updates, and the composition of the changes of a
-- range. What it reads from and appends to the file are the fields of a record. Of a timeout there
-- is how many attempts it allows; logging is left out.
pub mod Rounds
pub mod Composition
use bayou.Prelude.{
  ℕ, zero, suc, ◌+◌, ◌-◌, Bool, true, false, ◌&&◌, not, Option, none, some, List, [], map, Result,
  bad_value, no_fuel, timed_out, leb, ◌==◌, nat_eq, if◌then◌else◌,
}
use bayou.Ot.Delta
use bayou.Ot.Delta.{DeltaClass, is_empty}
use bayou.Ot.Change.{Change, change}
use bayou.Ot.Snapshot
use bayou.Ot.Snapshot.{Snapshot}
use bayou.FileStore.BaseFile.{Call, ◌>>=◌, ◌>>◌, return, throw, check_that}

-- What `_getChangeRange()` is, with no change missing.
abbrev pub ChangeRange : Type 0 → Type 0 → Type 0
ChangeRange Op S = ℕ → ℕ → Call S (List (Change Op))

-- The calls on the file, and the methods that a subclass overrides.
pub record Control (Op S : Type 0) : Type 0 where
  -- `getSnapshot()`, of the current revision for `null`.
  pub get_snapshot : Option ℕ → Call S (Snapshot Op)
  pub append_change : Change Op → Call S Bool
  -- `_getChangeRange()`, with no change missing.
  pub get_change_range : ChangeRange Op S
  pub impl_diff_as_delta : Snapshot Op → Snapshot Op → Result (Delta.Delta Op)
  pub impl_validate_change : Change Op → Snapshot Op → Result (Unit {0})

-- The signature of `_impl_rebase()`: the change, and the base, the expected and the current snapshot.
abbrev pub Rebase : Type 0 → Type 0 → Type 0
Rebase Op S = Change Op → Snapshot Op → Snapshot Op → Snapshot Op → Call S (Change Op)

-- A call of code that changes nothing of the state.
abbrev pub lift : {S A : Type 0} → Result A → Call S A
lift result s = (result, s)

-- `MAX_CHANGE_READS_PER_ITERATION`
abbrev pub max_change_reads_per_iteration : ℕ
max_change_reads_per_iteration = 1000

abbrev pub or_end : ℕ → ℕ → ℕ
or_end n end = if leb n end then n else end

module _ {Op S : Type 0} (class : DeltaClass Op) (get_change_range : ChangeRange Op S) where
  -- The loop of `getComposedChanges()`, for as many rounds at most as there are revisions.
  unfoldable pub compose_rounds : ℕ → Delta.Delta Op → ℕ → ℕ → Bool → Call S (Delta.Delta Op)
  compose_rounds zero result i end want_document =
      if leb end i then return result else throw no_fuel
  compose_rounds (suc fuel) result i end want_document =
      let next = i + max_change_reads_per_iteration in
      let round = (do
        changes ← get_change_range i (or_end next end)
        composed ← lift (
            Delta.compose_all class result (map (λ (ch : Change Op). ch.delta) changes)
              want_document)
        compose_rounds fuel composed next end want_document) in
      if leb end i then return result else round

  unfoldable pub get_composed_changes : Delta.Delta Op → ℕ → ℕ → Bool → Call S (Delta.Delta Op)
  get_composed_changes base_delta start end want_document =
      if start == end
      then (do
        check_that (not (want_document && not (class.impl_is_document base_delta))) bad_value
        none_read ← get_change_range start start
        return base_delta)
      else compose_rounds (end - start) base_delta start end want_document

-- `MAX_COMPOSED_CHANGES_FOR_DIFF`
abbrev pub max_composed_changes_for_diff : ℕ
max_composed_changes_for_diff = 100

module _ {Op S : Type 0} (class : DeltaClass Op) (control : Control Op S) where
  -- The two snapshots, which the source reads at once, are read in turn.
  unfoldable pub get_diff : ℕ → ℕ → Call S (Change Op)
  get_diff base_rev_num newer_rev_num = do
    check_that (leb (base_rev_num + 1) newer_rev_num) bad_value
    if leb (newer_rev_num - base_rev_num) max_composed_changes_for_diff
        then (do
          delta ←
              get_composed_changes class control.get_change_range [] (base_rev_num + 1)
                (newer_rev_num + 1) false
          return (change newer_rev_num delta))
        else (do
          base ← control.get_snapshot (some base_rev_num)
          newer ← control.get_snapshot (some newer_rev_num)
          lift (Snapshot.diff class control.impl_diff_as_delta base newer))

  module _ (impl_rebase : Rebase Op S) where
    -- `change === changeToAppend`, and what is returned when the append succeeds.
    unfoldable pub appended : Bool → Change Op → Snapshot Op → Call S (Option (Change Op))
    appended true to_append expected = return (some (change to_append.rev_num []))
    appended false to_append expected = do
      result ← control.get_snapshot (some to_append.rev_num)
      correction ← lift (Snapshot.diff class control.impl_diff_as_delta expected result)
      return (some correction)

    unfoldable pub append_rebased :
        Bool → Change Op → Snapshot Op → Snapshot Op → Call S (Option (Change Op))
    append_rebased same to_append expected current =
        if is_empty to_append.delta then return (some (change current.rev_num [])) else (do
          success ← control.append_change to_append
          if success then appended same to_append expected else return none)

    -- `_attemptUpdate()`: `none` is a lost race.
    unfoldable pub attempt_update :
        Change Op → Snapshot Op → Snapshot Op → Call S (Option (Change Op))
    attempt_update ch base expected = do
      current ← control.get_snapshot none
      if base.rev_num == current.rev_num then append_rebased true ch expected current else (do
        rebased ← impl_rebase ch base expected current
        append_rebased false rebased expected current)

    -- The loop of `update()`, with the attempts that the timeout allows.
    unfoldable pub attempts : ℕ → Change Op → Snapshot Op → Snapshot Op → Call S (Change Op)
    attempts zero ch base expected = throw timed_out
    attempts (suc n) ch base expected = do
      result ← attempt_update ch base expected
      elim result [ some correction ↦ return correction | none ↦ attempts n ch base expected ]

    unfoldable pub update : ℕ → Change Op → Call S (Change Op)
    update allowed ch = do
      check_that (elim ch.timestamp [ none ↦ false | some _ ↦ true ]) bad_value
      check_that (leb 1 ch.rev_num) bad_value
      base ← control.get_snapshot (some (ch.rev_num - 1))
      expected ← lift (Snapshot.compose class base ch)
      checked ← lift (control.impl_validate_change ch base)
      attempts allowed ch base expected
