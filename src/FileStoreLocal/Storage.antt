-- ===== src/FileStoreLocal/Storage.antt =====
-- The reads and writes of local-modules/@bayou/file-store-local/LocalFile.js, over the entries of its
-- directory, in the order in which it lists them; `none` is a directory that is not there. A write
-- of a file ends before the next begins.
pub mod Order
pub mod Durable
pub mod RoundTrip
pub mod Pending
use bayou.Prelude.{
  ℕ, zero, suc, ◌+◌, ◌≡◌, Bool, true, false, Option, none, some, List, [], ◌∷◌, length, Result, ok,
  err, bad_data, ◌>>=◌, ◌>>◌, guard, leb, ltb, ◌==◌, nat_eq, String, string_eq, if◌then◌else◌,
}
use bayou.JsMap
use bayou.JsMap.{JsMap}
use bayou.Ot.Change.{Change}
use bayou.Ot.Snapshot.{empty}
use bayou.PromiseUtil.Condition.{set_value}
use bayou.FileStoreLocal.Names.{rev_num_from_fs_path, fs_path_from_rev_num}
use bayou.FileStoreLocal.SparseArray
use bayou.FileStoreLocal.SparseArray.{SparseArray}
use bayou.FileStoreLocal.LocalFile.{LocalFile, exists_now}

abbrev pub Directory : Type 0 → Type 0
Directory Buffer = Option (JsMap String Buffer)

-- The entries, once the directory is made.
abbrev pub entries : {Buffer : Type 0} → Directory Buffer → JsMap String Buffer
entries none = []
entries (some files) = files

-- `MAX_PARALLEL_FS_CALLS`
abbrev pub max_parallel_fs_calls : ℕ
max_parallel_fs_calls = 20

module _ {Op Buffer : Type 0} (decode : Buffer → Result (Change Op)) where
  -- `storeBufs()`
  unfoldable pub store_bufs :
      JsMap ℕ Buffer → SparseArray (Change Op) → Result (SparseArray (Change Op))
  store_bufs [] changes = ok changes
  store_bufs ((n, buf) ∷ bufs) changes = do
    change ← decode buf
    guard (n == change.rev_num) bad_data
    store_bufs bufs (SparseArray.set n change changes)

  -- The loop over what the directory lists, with the buffers that wait, the count of the changes and
  -- the changes that were read.
  unfoldable pub read_files :
      JsMap String Buffer
      → JsMap ℕ Buffer
      → ℕ
      → SparseArray (Change Op)
      → Result (ℕ × SparseArray (Change Op))
  read_files [] waiting count changes = do read ← store_bufs waiting changes; ok (count, read)
  read_files ((name, buf) ∷ files) waiting count changes = elim (rev_num_from_fs_path name) [
    | none ↦ read_files files waiting count changes
    | some n ↦
        let more = JsMap.set n buf waiting in
        let later = read_files files more (suc count) changes in
        if leb max_parallel_fs_calls (JsMap.size more)
        then (store_bufs more changes >>= λ read. read_files files [] (suc count) read)
        else later
  ]

  -- What `_readStorage()` makes of the changes that it read.
  unfoldable pub loaded :
      LocalFile Op Buffer → ℕ × SparseArray (Change Op) → Result (Unit {0}) × LocalFile Op Buffer
  loaded s (count, changes) =
      if count == length changes
      then (
        ok tt,
        record s {
          should_exist = some (ltb 0 count);
          changes = changes;
          snapshot = ok (some empty);
          to_write = [];
          dirty = false;
          change_condition = set_value true s.change_condition;
        },
      )
      else (err bad_data, s)

  abbrev pub loaded_or_thrown :
      LocalFile Op Buffer
      → Result (ℕ × SparseArray (Change Op))
      → Result (Unit {0}) × LocalFile Op Buffer
  loaded_or_thrown s (ok read) = loaded s read
  loaded_or_thrown s (err e) = (err e, s)

  unfoldable pub read_storage :
      Directory Buffer → LocalFile Op Buffer → Result (Unit {0}) × LocalFile Op Buffer
  read_storage none s = (
    ok tt,
    record s {
      should_exist = some false;
      changes = [];
      snapshot = ok (some empty);
      change_condition = set_value true s.change_condition;
    },
  )
  read_storage (some files) s = loaded_or_thrown s (read_files files [] 0 [])

module _ {Buffer : Type 0} where
  -- The loop of `_writeStorage()`.
  unfoldable pub write_files : JsMap ℕ Buffer → JsMap String Buffer → JsMap String Buffer
  write_files [] files = files
  write_files ((n, buf) ∷ values) files =
      write_files values (JsMap.set (fs_path_from_rev_num n) buf files)

module _ {Op Buffer : Type 0} where
  unfoldable pub write_storage :
      LocalFile Op Buffer → Directory Buffer → LocalFile Op Buffer × Directory Buffer
  write_storage s directory =
      (record s { dirty = false; to_write = [] }, some (write_files s.to_write (entries directory)))

  unfoldable pub delete_storage :
      LocalFile Op Buffer → Directory Buffer → LocalFile Op Buffer × Directory Buffer
  delete_storage s none = (s, none)
  delete_storage s (some files) = (record s { should_exist = some false; changes = [] }, none)

  -- `_flushPendingStorage()`, and `flush()`.
  unfoldable pub flush :
      LocalFile Op Buffer → Directory Buffer → LocalFile Op Buffer × Directory Buffer
  flush s directory = if exists_now s then write_storage s directory else delete_storage s directory
