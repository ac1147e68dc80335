-- ===== src/FileStoreLocal/LocalFile.antt =====
-- local-modules/@bayou/file-store-local/LocalFile.js. What the codec and the file system give are
-- arguments. A promise is the value it settles to; logging, delays and timeouts are left out.
pub mod Memory
pub mod Reading
pub mod Log
pub mod Contract
use bayou.Prelude.{
  ℕ, zero, suc, ◌+◌, ◌≡◌, Bool, true, false, Option, none, some, List, [], ◌∷◌, length, Result, ok,
  err, bad_value, type_error, file_not_found, no_fuel, leb, ◌==◌, nat_eq, if◌then◌else◌,
}
use bayou.Prelude.Int.{ℤ, pos, negsuc}
use bayou.JsMap
use bayou.JsMap.{JsMap}
use bayou.Ot.Delta.{DeltaClass}
use bayou.Ot.Change.{Change, first}
use bayou.Ot.Snapshot
use bayou.Ot.Snapshot.{Snapshot, compose_all, empty}
use bayou.PromiseUtil.Condition
use bayou.PromiseUtil.Condition.{Condition, set_value}
use bayou.FileStore.BaseFile.{Call, ◌>>=◌, ◌>>◌, return, throw, check_that, FileImpl}
use bayou.FileStoreLocal.SparseArray
use bayou.FileStoreLocal.SparseArray.{SparseArray}

pub record LocalFile (Op Buffer : Type 0) : Type 0 where
  pub changes : SparseArray (Change Op)
  pub snapshot : Result (Option (Snapshot Op))
  pub should_exist : Option Bool
  pub to_write : JsMap ℕ Buffer
  pub dirty : Bool
  -- What the one read of the storage came to.
  pub ready : Option (Result (Unit {0}))
  pub change_condition : Condition
  -- How many flushes wait for their time.
  pub flushes : ℕ

-- What the promise of `composeAll()` settles to.
abbrev pub settled : {Op : Type 0} → Option (Result (Snapshot Op)) → Result (Option (Snapshot Op))
settled (some (ok made)) = ok (some made)
settled (some (err e)) = err e
settled none = err no_fuel

module _ {Op Buffer : Type 0} where
  -- The constructor.
  unfoldable pub make : LocalFile Op Buffer
  make = record {
    changes = [];
    snapshot = ok (some empty);
    should_exist = none;
    to_write = [];
    dirty = false;
    ready = none;
    change_condition = Condition.make true;
    flushes = 0;
  }

  abbrev pub modify :
      (LocalFile Op Buffer → LocalFile Op Buffer) → Call (LocalFile Op Buffer) (Unit {0})
  modify f s = (ok tt, f s)

  -- `_currentRevNum`, and `RevisionNumber`s up to the next one.
  unfoldable pub last_rev_num : LocalFile Op Buffer → ℤ
  last_rev_num s = elim (length s.changes) [ zero ↦ negsuc 0 | suc n ↦ pos n ]

  unfoldable pub storage_needs_flush : LocalFile Op Buffer → LocalFile Op Buffer
  storage_needs_flush s = record s {
    change_condition = set_value true s.change_condition;
    dirty = true;
    flushes = if s.dirty then s.flushes else suc s.flushes;
  }

  -- `!this._fileShouldExist`, the other way.
  abbrev pub exists_now : LocalFile Op Buffer → Bool
  exists_now s = elim s.should_exist [ some b ↦ b | none ↦ false ]

  module _ (class : DeltaClass Op) (encode : Change Op → Buffer)
      -- `_readStorage()` on the directory.
      (read_storage : LocalFile Op Buffer → Result (Unit {0}) × LocalFile Op Buffer) where
    unfoldable pub read_storage_if_necessary : Call (LocalFile Op Buffer) (Unit {0})
    read_storage_if_necessary s = elim s.changes [
      | _ ∷ _ ↦ (ok tt, s)
      | [] ↦ elim s.ready [
        | some outcome ↦ (outcome, s)
        | none ↦ let (outcome, t) = read_storage s in (outcome, record t { ready = some outcome })
      ]
    ]

    abbrev pub store_change : Change Op → LocalFile Op Buffer → LocalFile Op Buffer
    store_change ch s = record s {
      changes = SparseArray.set ch.rev_num ch s.changes;
      to_write = JsMap.set ch.rev_num (encode ch) s.to_write;
    }

    unfoldable pub append_if_next : Change Op → Call (LocalFile Op Buffer) Bool
    append_if_next ch s =
        if exists_now s
        then (if leb (length s.changes) ch.rev_num
            then (ok true, storage_needs_flush (store_change ch s))
            else (ok false, s))
        else (err file_not_found, s)

    unfoldable pub impl_append_change : Change Op → Call (LocalFile Op Buffer) Bool
    impl_append_change ch s =
        (check_that (leb ch.rev_num (length s.changes)) bad_value
            >> read_storage_if_necessary
            >> append_if_next ch)
          s

    abbrev pub created : LocalFile Op Buffer → LocalFile Op Buffer
    created s = storage_needs_flush (store_change first (record s { should_exist = some true }))

    unfoldable pub impl_create : Call (LocalFile Op Buffer) (Unit {0})
    impl_create = read_storage_if_necessary >> modify (λ s. if exists_now s then s else created s)

    unfoldable pub impl_current_rev_num : Call (LocalFile Op Buffer) ℤ
    impl_current_rev_num = read_storage_if_necessary >> (λ s. (ok (last_rev_num s), s))

    abbrev pub deleted : LocalFile Op Buffer → LocalFile Op Buffer
    deleted s =
        storage_needs_flush
          (record s { should_exist = some false; changes = []; snapshot = ok (some empty) })

    unfoldable pub impl_delete : Call (LocalFile Op Buffer) (Unit {0})
    impl_delete = read_storage_if_necessary >> modify (λ s. if exists_now s then deleted s else s)

    unfoldable pub impl_exists : Call (LocalFile Op Buffer) Bool
    impl_exists = read_storage_if_necessary >> (λ s. (ok (exists_now s), s))

    unfoldable pub impl_get_change : ℕ → Call (LocalFile Op Buffer) (Option (Change Op))
    impl_get_change rev_num =
        read_storage_if_necessary >> (λ s. (ok (SparseArray.get rev_num s.changes), s))

    -- `MAX_ATOMIC_COMPOSED_CHANGES`
    abbrev pub max_atomic_composed_changes : ℕ
    max_atomic_composed_changes = 1000

    -- `composeAll()`, with as many rounds as there are changes.
    abbrev pub compose_changes : Snapshot Op → List (Change Op) → Result (Option (Snapshot Op))
    compose_changes base l =
        settled (compose_all class (length l) max_atomic_composed_changes base l)

    -- `_getSnapshot()`. Each change is checked when its round comes; here all are, first.
    unfoldable pub make_snapshot :
        SparseArray (Change Op) → ℕ → Snapshot Op → Result (Option (Snapshot Op))
    make_snapshot changes rev_num base =
        if rev_num == base.rev_num
        then ok (some base)
        else if leb rev_num base.rev_num
        then ok none
        else elim (SparseArray.elements
            (SparseArray.slice (suc base.rev_num) (suc rev_num) changes)) [
              | ok l ↦ compose_changes base l
              | err e ↦ err e
            ]

    -- `this._snapshotPromise = snapshot`, if it is of the current revision.
    abbrev pub keep_snapshot :
        ℕ → Result (Option (Snapshot Op)) → Call (LocalFile Op Buffer) (Option (Snapshot Op))
    keep_snapshot rev_num made s =
        (made, if suc rev_num == length s.changes then record s { snapshot = made } else s)

    abbrev pub get_or_make :
        ℕ → Result (Option (Snapshot Op)) → Call (LocalFile Op Buffer) (Option (Snapshot Op))
    get_or_make rev_num (err e) s = (err e, s)
    get_or_make rev_num (ok none) s = (err type_error, s)
    get_or_make rev_num (ok (some already)) s =
        if already.rev_num == rev_num
        then (ok (some already), s)
        else keep_snapshot rev_num (make_snapshot s.changes rev_num already) s

    unfoldable pub impl_get_snapshot : ℕ → Call (LocalFile Op Buffer) (Option (Snapshot Op))
    impl_get_snapshot rev_num = read_storage_if_necessary >> (λ s. get_or_make rev_num s.snapshot s)

    abbrev pub local_file : FileImpl Op (LocalFile Op Buffer)
    local_file = record {
      impl_append_change = impl_append_change;
      impl_current_rev_num = impl_current_rev_num;
      impl_get_change = impl_get_change;
      impl_get_snapshot = impl_get_snapshot;
    }
