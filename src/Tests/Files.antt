-- ===== src/Tests/Files.antt =====
-- local-modules/@bayou/file-store-ot at concrete files. A blob is its text, and its hash that text
-- behind a `=`.
use Prim.Native.String.{◌++◌ as str_append, count}
use text.Mathlib.Text.{starts_with}
use bayou.Prelude.{
  ℕ, ◌≡◌, refl, Bool, true, false, Option, some, List, [], ◌∷◌, ok, String, string_eq, arith,
}
use bayou.JsMap
use bayou.JsMap.Rewrite.{write_all}
use bayou.Ot.Delta.{Delta}
use bayou.Ot.Change.{Change, change}
use bayou.Ot.Snapshot
use bayou.Ot.Snapshot.{Snapshot}
use bayou.Ot.Snapshot.Chunks.{compose_each, compose_all-eq}
use bayou.FileStore.StoragePath
use bayou.FileStore.Op.{
  FileOp, delete_blob, delete_path_prefix, delete_path_range, write_blob, write_path,
}
use bayou.FileStore.Delta.{impl_compose, impl_is_document, is_document_from, file_class}
use bayou.FileStore.Delta.Meaning.{apply, meaning, Valid}
use bayou.FileStore.Delta.Laws.{apply-impl_compose, blobs-impl_compose, file_laws}
use bayou.FileStore.Snapshot.{diff}
use bayou.FileStore.Snapshot.Laws.{IsDocument, map_of, blob_at, blob_at-compose}
use bayou.FileStore.Snapshot.Diff.{compose-file_diff, HasIds}

abbrev pub hash : String → String
hash b = str_append "=" b

abbrev is_hash : String → Bool
is_hash s = starts_with s "="

abbrev pub size : String → ℕ
size b = count b

abbrev older_ops : Delta (FileOp String)
older_ops = write_path "/a/1" "x" ∷ write_path "/a/2" "y" ∷ write_blob "z" ∷ []

abbrev newer_ops : Delta (FileOp String)
newer_ops = write_path "/b" "x" ∷ write_path "/a/2" "w" ∷ []

abbrev edit : Delta (FileOp String)
edit = delete_path_prefix "/a" ∷ write_path "/b" "y" ∷ delete_blob "=z" ∷ []

abbrev edit_2 : Delta (FileOp String)
edit_2 = delete_path_range "/a" 1 3 ∷ write_path "/a/2" "v" ∷ []

abbrev older : Snapshot (FileOp String)
older = record { rev_num = 3; contents = older_ops }

abbrev newer : Snapshot (FileOp String)
newer = record { rev_num = 5; contents = newer_ops }

older_document : impl_is_document hash older_ops ≡ true
unfolding impl_is_document is_document_from JsMap.has JsMap.set
older_document = refl

newer_document : impl_is_document hash newer_ops ≡ true
unfolding impl_is_document is_document_from JsMap.has JsMap.set
newer_document = refl

older_ids : HasIds is_hash (map_of hash older)
unfolding write_all JsMap.set StoragePath.is_instance StoragePath.components
older_ids = (refl, (refl, (refl, tt)))

a_is_path : StoragePath.is_instance "/a" ≡ true
unfolding StoragePath.is_instance StoragePath.components
a_is_path = refl

edit-Valid : Valid edit
edit-Valid = (a_is_path, (tt, (tt, tt)))

edit_2-Valid : Valid edit_2
edit_2-Valid = (tt, (tt, tt))

blobs-impl_compose_example :
    (r : Delta (FileOp String)) × (impl_compose hash older_ops edit true ≡ ok r)
    × (impl_is_document hash r ≡ true)
    × Valid r
    × ((k : String) → meaning hash r k ≡ apply hash edit (meaning hash older_ops) k)
blobs-impl_compose_example = blobs-impl_compose hash older_ops edit edit-Valid older_document

apply-impl_compose_example :
    (r : Delta (FileOp String)) × (impl_compose hash edit edit_2 false ≡ ok r)
    × ((s : String → Option String) (k : String)
        → apply hash r s k ≡ apply hash edit_2 (apply hash edit s) k)
apply-impl_compose_example = apply-impl_compose hash edit edit_2 edit-Valid edit_2-Valid

compose-file_diff_example :
    (ch : Change (FileOp String)) × (r : Snapshot (FileOp String)) × (diff hash size is_hash older
        newer
      ≡ ok ch)
    × (Snapshot.compose (file_class hash size) older ch ≡ ok r)
    × (r.rev_num ≡ 5)
    × ((k : String) → blob_at hash r k ≡ blob_at hash newer k)
compose-file_diff_example =
    compose-file_diff hash size is_hash older newer older_document newer_document older_ids

blob_at-compose_example :
    (t : Snapshot (FileOp String)) × (Snapshot.compose (file_class hash size) older (change 4 edit)
      ≡ ok t)
    × IsDocument hash t
    × (t.rev_num ≡ 4)
    × ((k : String) → blob_at hash t k ≡ apply hash edit (blob_at hash older) k)
blob_at-compose_example = blob_at-compose hash size older (change 4 edit) older_document edit-Valid

abbrev changes : List (Change (FileOp String))
changes = change 4 edit ∷ change 5 edit_2 ∷ []

compose_all-eq_example :
    Snapshot.compose_all (file_class hash size) 2 1 older changes
    ≡ some (compose_each (file_class hash size) older changes)
compose_all-eq_example =
    compose_all-eq (file_laws hash size) 2 0 older changes (tt, (tt, (tt, tt)))
      (edit-Valid, (edit_2-Valid, tt)) older_document (omega arith)
