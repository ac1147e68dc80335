-- ===== src/Tests/LocalFiles.antt =====
-- local-modules/@bayou/file-store-local at a concrete file. A blob is its text, and its hash that
-- text behind a `=`; a buffer is the change that it encodes.
use mathlib.Core.List.{Permᴰ}
use mathlib.Core.List.Permᴰ
use bayou.Prelude.{
  ◌≡◌, refl, true, none, some, List, [], ◌∷◌, map, Result, ok, err, bad_value,
  revision_not_available, String, nat_eq, string_eq, ltb, if◌then◌else◌, arith,
}
use bayou.JsMap
use bayou.Ot.Delta.{DeltaClass}
use bayou.Ot.Change.{Change, change, first}
use bayou.Ot.Snapshot.{empty}
use bayou.Ot.Snapshot.Chunks.{compose_each}
use bayou.FileStore.Op.{FileOp, write_path, delete_path}
use bayou.FileStore.Delta.{impl_is_document, is_document_from, file_class}
use bayou.FileStore.Delta.Laws.{file_laws}
use bayou.FileStore.BaseFile
use bayou.FileStoreLocal.Names.{fs_path_from_rev_num, padded, hex_text, hex_onto, char_at, zeros}
use bayou.FileStoreLocal.SparseArray
use bayou.FileStoreLocal.SparseArray.{full}
use bayou.FileStoreLocal.LocalFile.{
  LocalFile, make, local_file, impl_create, impl_delete, impl_append_change,
  read_storage_if_necessary, storage_needs_flush,
}
use bayou.FileStoreLocal.LocalFile.Memory.{IsFile}
use bayou.FileStoreLocal.LocalFile.Reading.{local-get_snapshot}
use bayou.FileStoreLocal.LocalFile.Log.{local-append_change}
use bayou.FileStoreLocal.Storage.{
  Directory, read_storage, write_storage, write_files, delete_storage, flush,
}
use bayou.FileStoreLocal.Storage.RoundTrip.{IsStored, flush-read_storage}
use bayou.FileStoreLocal.Storage.Pending.{create-IsFile, append_change-IsStored}
use bayou.Tests.Files.{hash, size}

abbrev class : DeltaClass (FileOp String)
class = file_class hash size

abbrev FileChange : Type 0
FileChange = Change (FileOp String)

abbrev encode : FileChange → FileChange
encode ch = ch

abbrev decode : FileChange → Result FileChange
decode buffer = ok buffer

round_trip : (x : FileChange) → decode (encode x) ≡ ok x
round_trip x = refl

empty_document : class.impl_is_document [] ≡ true
unfolding impl_is_document is_document_from
empty_document = refl

abbrev edit : FileChange
edit = change 1 (write_path "/a" "x" ∷ [])

abbrev edit_2 : FileChange
edit_2 = change 2 (delete_path "/a" ∷ write_path "/b" "y" ∷ [])

abbrev later : List FileChange
later = edit ∷ []

abbrev directory : Directory FileChange
directory = some ((fs_path_from_rev_num 0, first) ∷ [])

-- A file with two changes, the second of which is not yet written.
abbrev file : LocalFile (FileOp String) FileChange
file = record {
  changes = full (first ∷ later);
  snapshot = ok (some empty);
  should_exist = some true;
  to_write = (1, edit) ∷ [];
  dirty = true;
  ready = some (ok tt);
  change_condition = (make {Op = FileOp String} {Buffer = FileChange}).change_condition;
  flushes = 1;
}

file-IsFile : IsFile (file_laws hash size) file first later
unfolding compose_each
file-IsFile = record {
  exists = refl;
  holds = refl;
  numbered = (refl, tt);
  valid = ((tt, tt), tt);
  kept_at = 0;
  kept_bound = omega arith;
  kept = record {
    to = empty;
    runs = refl;
    document = empty_document;
    valid = tt;
    rev = omega arith;
  };
  keeps = refl;
}

file-IsStored :
    IsStored
      (file_laws hash size)
      empty_document
      encode
      decode
      round_trip
      file
      directory
      first
      later
file-IsStored = record {
  first_rev = refl;
  done = first ∷ [];
  rest = later;
  split = refl;
  listed = first ∷ [];
  order = Permᴰ.refl (first ∷ []);
  lists = refl;
  queues = refl;
}

abbrev no_read :
    LocalFile (FileOp String) FileChange → Result (Unit {0}) × LocalFile (FileOp String) FileChange
no_read s = (ok tt, s)

abbrev saved : FileChange → String × FileChange
saved x = (fs_path_from_rev_num x.rev_num, encode x)

abbrev listing : List FileChange
listing = edit ∷ first ∷ []

flush-read_storage_example :
    (t : LocalFile (FileOp String) FileChange) × (n : List FileChange) × (flush file directory
      ≡ (t, some (map saved n)))
    × Permᴰ n (first ∷ later)
    × IsFile (file_laws hash size) t first later
    × IsStored
        (file_laws hash size)
        empty_document
        encode
        decode
        round_trip
        t
        (some (map saved n))
        first
        later
    × ((u : LocalFile (FileOp String) FileChange) × (read_storage decode
            (some (map saved listing))
            make
          ≡ (ok tt, u))
        × IsFile (file_laws hash size) u first later
        × IsStored
            (file_laws hash size)
            empty_document
            encode
            decode
            round_trip
            u
            (some (map saved listing))
            first
            later)
flush-read_storage_example =
    flush-read_storage (file_laws hash size) empty_document encode decode round_trip file directory
      first later listing file-IsFile file-IsStored (omega arith) (Permᴰ.swap refl refl)

local-get_snapshot_example :
    (t : LocalFile (FileOp String) FileChange) × IsFile (file_laws hash size) t first later
    × (t ≡ record file { snapshot = t.snapshot })
    × (BaseFile.get_snapshot (local_file class encode no_read) (some 1) file ≡ (
      if ltb 1 file-IsFile.kept_at
          then err revision_not_available
          else compose_each class empty later,
      t,
    ))
local-get_snapshot_example =
    local-get_snapshot (file_laws hash size) empty_document encode no_read file first later (some 1)
      file-IsFile

local-append_change_example :
    (t : LocalFile (FileOp String) FileChange) × IsFile
      (file_laws hash size)
      t
      first
      (edit ∷ edit_2 ∷ [])
    × (BaseFile.append_change (local_file class encode no_read) edit_2 file ≡ (ok true, t))
local-append_change_example =
    local-append_change (file_laws hash size) empty_document encode no_read file first edit_2 later
      file-IsFile (tt, (tt, tt))

abbrev fresh : LocalFile (FileOp String) FileChange
fresh = (create-IsFile (file_laws hash size) empty_document encode decode round_trip).0

append_change-IsStored_example :
    (t : LocalFile (FileOp String) FileChange) × (BaseFile.append_change
        (local_file class encode no_read)
        edit
        fresh
      ≡ (ok true, t))
    × IsFile (file_laws hash size) t first later
    × IsStored (file_laws hash size) empty_document encode decode round_trip t none first later
append_change-IsStored_example =
    append_change-IsStored (file_laws hash size) empty_document encode decode round_trip no_read
      fresh none first edit []
      (create-IsFile (file_laws hash size) empty_document encode decode round_trip).2
      (create-IsFile (file_laws hash size) empty_document encode decode round_trip).3 (tt, tt) refl

-- A flush before the first read erases the directory.
flush-make : (flush (make {Op = FileOp String} {Buffer = FileChange}) directory).1 ≡ none
unfolding flush make delete_storage
flush-make = refl

-- The next revision is refused when it comes before the first read.
append-unread :
    impl_append_change class encode (read_storage decode directory) edit make
    ≡ (err bad_value, make)
unfolding impl_append_change make
append-unread = refl

abbrev flushed : LocalFile (FileOp String) FileChange × Directory FileChange
flushed = flush file directory

abbrev again : LocalFile (FileOp String) FileChange × Directory FileChange
again =
    flush (impl_create class encode no_read (impl_delete class encode no_read flushed.0).1).1
      flushed.1

-- When a file is deleted and made again before a flush, its old revisions stay in the directory.
delete-create :
    again.1 ≡ some ((fs_path_from_rev_num 0, first) ∷ (fs_path_from_rev_num 1, edit) ∷ [])
unfolding flush write_storage write_files impl_create impl_delete read_storage_if_necessary
    storage_needs_flush SparseArray.set JsMap.set fs_path_from_rev_num padded hex_text hex_onto
    zeros char_at
delete-create = refl
