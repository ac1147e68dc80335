-- ===== src/FileStore/Snapshot/Laws.antt =====
-- About local-modules/@bayou/file-store-ot/FileSnapshot.js, by what a snapshot stores.
use bayou.Prelude.{
  path_hash_mismatch, path_not_absent, path_not_present, ℕ, ◌≡◌, refl, sym, ◌∙◌, Bool, true, Option,
  none, some, [], ◌∷◌, String, string_eq, ok, ◌>>=◌, Eq, ◌==◌, if◌then◌else◌, arith, inl, inr,
  Option-cases,
}
use bayou.JsMap
use bayou.JsMap.{JsMap}
use bayou.JsMap.Rewrite.{write_all}
use bayou.JsMap.Distinct.{IsDocumentMap, distinct, entry_of}
use bayou.Ot.Delta.{Delta}
use bayou.Ot.Change.{Change}
use bayou.Ot.Snapshot.{Snapshot, compose}
use bayou.Ot.Snapshot.Chunks.{snapshot-compose}
use bayou.FileStore.StoragePath
use bayou.FileStore.Op.{
  FileOp, delete_all, delete_blob, delete_path, delete_path_prefix, delete_path_range, write_blob,
  write_path,
}
use bayou.FileStore.Delta.{file_class, impl_is_document}
use bayou.FileStore.Delta.Meaning.{apply, meaning, key, act, is_write, Valid}
use bayou.FileStore.Delta.Turns.{values-Valid}
use bayou.FileStore.Delta.Documents.{document_map, is_document-eq}
use bayou.FileStore.Delta.Laws.{file_laws, blobs-impl_compose, document-stored}
use bayou.FileStore.Snapshot.{
  build, values_of, blob_of, get_or_null, check_id, check_path_is, check_path_absent,
  check_path_present,
}

module _ {B : Type 0} (hash : B → String) where
  abbrev pub IsDocument : Snapshot (FileOp B) → Type 0
  IsDocument s = impl_is_document hash s.contents ≡ true

  -- The map of a snapshot, and what it stores under an ID.
  abbrev pub map_of : Snapshot (FileOp B) → JsMap String (FileOp B)
  map_of s = write_all (key hash) s.contents []

  abbrev pub blob_at : Snapshot (FileOp B) → String → Option B
  blob_at s k = meaning hash s.contents k

  build-write_all :
      (m : JsMap String (FileOp B)) (d : Delta (FileOp B)) (ids : JsMap String (Unit {0}))
      → distinct (key hash) is_write ids d ≡ true
      → build hash m d ≡ ok (write_all (key hash) d m)
  unfolding build write_all distinct
  build-write_all m [] ids h = refl
  build-write_all m (write_blob b ∷ ops) ids h =
      ground (
        arith,
        build-write_all (JsMap.set (hash b) (write_blob b) m) ops (JsMap.set (hash b) tt ids),
      )
  build-write_all m (write_path p b ∷ ops) ids h =
      ground (arith, build-write_all (JsMap.set p (write_path p b) m) ops (JsMap.set p tt ids))
  build-write_all m (delete_all ∷ ops) ids h = absurd (ground arith)
  build-write_all m (delete_blob _ ∷ ops) ids h = absurd (ground arith)
  build-write_all m (delete_path _ ∷ ops) ids h = absurd (ground arith)
  build-write_all m (delete_path_prefix _ ∷ ops) ids h = absurd (ground arith)
  build-write_all m (delete_path_range _ _ _ ∷ ops) ids h = absurd (ground arith)

  pub values_of-eq : (s : Snapshot (FileOp B)) → IsDocument s → values_of hash s ≡ ok (map_of s)
  unfolding values_of
  values_of-eq s h = build-write_all [] s.contents [] (sym (is_document-eq hash s.contents) ∙ h)

  pub map_of-IsDocumentMap :
      (s : Snapshot (FileOp B)) → IsDocument s → IsDocumentMap (key hash) is_write (map_of s)
  map_of-IsDocumentMap s h = (document_map hash s.contents h).document

  blob_of_write : (o : FileOp B) → is_write o ≡ true → blob_of (some o) ≡ act o none
  blob_of_write (write_blob b) h = refl
  blob_of_write (write_path p b) h = refl
  blob_of_write o h = absurd (ground arith)

  pub blob_of-eq :
      (s : Snapshot (FileOp B)) (k : String)
      → IsDocument s
      → blob_of (JsMap.get k (map_of s)) ≡ blob_at s k
  blob_of-eq s k h = elim (Option-cases (JsMap.get k (map_of s))) [
    | inl q ↦ rw (document-stored hash s.contents k h, q)
    | inr (o, q) ↦
        rw (document-stored hash s.contents k h, q)
          (blob_of_write o
            (entry_of (key hash) is_write k (map_of s) (map_of-IsDocumentMap s h) q).1)
  ]

  module _ (is_hash : String → Bool) where
    -- Reading an ID of a document snapshot gives the blob that it stores there, or `null`, and what
    -- is no ID throws.
    pub blob_at-get_or_null :
        (s : Snapshot (FileOp B)) (id : String)
        → IsDocument s
        → get_or_null hash is_hash s id ≡ (check_id is_hash id >>= λ k. ok (blob_at s k))
    unfolding get_or_null check_id
    blob_at-get_or_null s id h = ground (arith, values_of-eq s h, blob_of-eq s id h)

    check_id_path :
        (path : String) → StoragePath.is_instance path ≡ true → check_id is_hash path ≡ ok path
    unfolding check_id
    check_id_path path h = rw h

    pub read_path :
        (s : Snapshot (FileOp B)) (path : String)
        → IsDocument s
        → StoragePath.is_instance path ≡ true
        → get_or_null hash is_hash s path ≡ ok (blob_at s path)
    read_path s path h i = blob_at-get_or_null s path h ∙ rw (check_id_path path i)

    -- On a document snapshot, a path and a hash, the checks for an absent path, a present path and
    -- a path's hash throw their own errors exactly when what is stored at the path fails them.
    pub checks :
        (s : Snapshot (FileOp B)) (path expected : String)
        → IsDocument s
        → StoragePath.is_instance path ≡ true
        → is_hash expected ≡ true
        → (check_path_absent hash is_hash s path
            ≡ ok (elim (blob_at s path) [ none ↦ none | some _ ↦ some path_not_absent ]))
          × (check_path_present hash is_hash s path
              ≡ ok (elim (blob_at s path) [ none ↦ some path_not_present | some _ ↦ none ]))
          × (check_path_is hash is_hash s path expected
              ≡ ok (elim (blob_at s path) [
                | none ↦ some path_hash_mismatch
                | some b ↦ if hash b == expected then none else some path_hash_mismatch
              ]))
    unfolding check_path_absent check_path_present check_path_is StoragePath.check
    checks s path expected h i e = (
      rw (i, read_path s path h i) refl,
      rw (i, read_path s path h i) refl,
      rw (i, read_path s path h i, e) refl,
    )

module _ {B : Type 0} (hash : B → String) ⦃e : Eq B⦄ (size : B → ℕ) where
  -- The operations of a document need no check.
  document-Valid : (s : Snapshot (FileOp B)) → IsDocument hash s → Valid s.contents
  document-Valid s h =
      let w = document_map hash s.contents h in
      rw w.same at (values-Valid hash (map_of hash s) w.document.writes)

  -- Composing a change, where its path prefixes are paths, onto a document snapshot does not throw:
  -- it gives a document snapshot at the change's revision, which stores what the delta makes of
  -- what was stored.
  pub blob_at-compose :
      (s : Snapshot (FileOp B)) (ch : Change (FileOp B))
      → IsDocument hash s
      → Valid ch.delta
      → (t : Snapshot (FileOp B)) × (compose (file_class hash size) s ch ≡ ok t)
        × IsDocument hash t
        × (t.rev_num ≡ ch.rev_num)
        × ((k : String) → blob_at hash t k ≡ apply hash ch.delta (blob_at hash s) k)
  blob_at-compose s ch h v =
      let (r, _, p, q, f, _) =
        snapshot-compose (file_laws hash size) s ch (document-Valid s h) v h in
      let (r', p', _, _, m) = blobs-impl_compose hash s.contents ch.delta v h in
      let same : r' ≡ r = cc in
      (record { rev_num = ch.rev_num; contents = r }, f, q, refl, λ k. rw same at (m k))
