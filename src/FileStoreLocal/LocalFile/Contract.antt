-- ===== src/FileStoreLocal/LocalFile/Contract.antt =====
-- That a file of local-modules/@bayou/file-store-local/LocalFile.js is what the users of
-- local-modules/@bayou/file-store/BaseFile.js rely on.
use bayou.Prelude.{
  ℕ, suc, ◌≤◌, ◌≡◌, refl, sym, ◌∙◌, ap, true, false, none, List, [], ◌∷◌, ◌++◌, String, Result, ok,
  take, length, arith, ltb, ◌==◌, nat_eq, Eq,
}
use bayou.Ot.Change.{Change}
use bayou.Ot.Snapshot
use bayou.Ot.Snapshot.{Snapshot, empty}
use bayou.Ot.Snapshot.Chunks.{compose_each}
use bayou.Ot.Snapshot.History.{compose_each-append, Composed, composed}
use bayou.FileStore.BaseFile
use bayou.FileStore.Op.{FileOp}
use bayou.FileStore.Delta.{file_class, impl_is_document}
use bayou.FileStore.Delta.Laws.{file_laws}
use bayou.FileStore.Delta.Meaning.{Valid}
use bayou.FileStore.FileLaws.{FileLaws}
use bayou.FileStore.Snapshot.Laws.{IsDocument, blob_at-compose}
use bayou.FileStoreLocal.LocalFile.{LocalFile, local_file}
use bayou.FileStoreLocal.LocalFile.Memory.{IsFile, local-current_rev_num}
use bayou.FileStoreLocal.LocalFile.Reading.{local-get_snapshot}
use bayou.FileStoreLocal.LocalFile.Log.{append_next, append-IsFile, local-append_change}

take_all : {A : Type 0} (l : List A) → take (length l) l ≡ l
take_all [] = refl
take_all (x ∷ l) = rw (take_all l)

module _ {B Buffer : Type 0} (hash : B → String) ⦃e : Eq B⦄ (size : B → ℕ)
    (empty_document : impl_is_document hash [] ≡ true) (encode : Change (FileOp B) → Buffer)
    (read_storage : LocalFile (FileOp B) Buffer
      → Result (Unit {0}) × LocalFile (FileOp B) Buffer) where
  -- An existing file shows what its changes compose to.
  pub record Shown (s : LocalFile (FileOp B) Buffer) (v : Snapshot (FileOp B)) : Type 0 where
    pub head : Change (FileOp B)
    pub changes : List (Change (FileOp B))
    pub is_file : IsFile (file_laws hash size) s head changes
    pub shows : compose_each (file_class hash size) empty changes ≡ ok v

  all_composed :
      (s : LocalFile (FileOp B) Buffer) (v : Snapshot (FileOp B)) (h : Shown s v)
      → Composed (file_laws hash size) empty h.changes
  all_composed s v h =
      composed (file_laws hash size) empty h.changes (file_laws hash size).empty_valid
        h.is_file.valid empty_document h.is_file.numbered

  Shown-IsDocument :
      (s : LocalFile (FileOp B) Buffer) (v : Snapshot (FileOp B)) → Shown s v → IsDocument hash v
  Shown-IsDocument s v h =
      let c = all_composed s v h in let same : c.to ≡ v = cc in rw same at c.document

  Shown-rev_num :
      (s : LocalFile (FileOp B) Buffer) (v : Snapshot (FileOp B)) (h : Shown s v)
      → v.rev_num ≡ length h.changes
  Shown-rev_num s v h =
      let c = all_composed s v h in
      let same : c.to ≡ v = cc in
      sym (ap (λ (t : Snapshot (FileOp B)). t.rev_num) same) ∙ c.rev ∙ omega arith

  Shown-read :
      (s : LocalFile (FileOp B) Buffer) (v : Snapshot (FileOp B))
      → Shown s v
      → (t : LocalFile (FileOp B) Buffer) × Shown t v
        × (BaseFile.get_snapshot (local_file (file_class hash size) encode read_storage) none s
            ≡ (ok v, t))
  Shown-read s v h =
      let (t, g, _, f) =
        local-get_snapshot (file_laws hash size) empty_document encode read_storage s h.head
          h.changes none h.is_file in
      let a : ltb (length h.changes) (length h.changes) ≡ false = ground arith in
      let b : ltb (length h.changes) h.is_file.kept_at ≡ false =
        ground (arith, h.is_file.kept_bound) in
      (
        t,
        record { head = h.head; changes = h.changes; is_file = g; shows = h.shows },
        f ∙ rw (a, b, take_all h.changes, h.shows) refl,
      )

  Shown-append :
      (s : LocalFile (FileOp B) Buffer) (v : Snapshot (FileOp B)) (ch : Change (FileOp B))
      → Shown s v
      → Valid ch.delta
      → ch.rev_num ≡ suc v.rev_num
      → (t : LocalFile (FileOp B) Buffer) × (w : Snapshot (FileOp B)) × Shown t w
        × (Snapshot.compose (file_class hash size) v ch ≡ ok w)
        × (BaseFile.append_change (local_file (file_class hash size) encode read_storage) ch s
            ≡ (ok true, t))
  unfolding compose_each
  Shown-append s v ch h valid n =
      let m : ch.rev_num ≡ suc (length h.changes) = n ∙ ap (λ k. suc k) (Shown-rev_num s v h) in
      let (w, c, _, _, _) = blob_at-compose hash size v ch (Shown-IsDocument s v h) valid in
      (
        _,
        w,
        record {
          head = h.head;
          changes = h.changes ++ (ch ∷ []);
          is_file =
              append-IsFile (file_laws hash size) empty_document encode read_storage s h.head ch
                h.changes h.is_file valid m;
          shows =
              compose_each-append (file_laws hash size) empty h.changes (ch ∷ [])
              ∙ rw (h.shows, c) refl;
        },
        c,
        append_next (file_laws hash size) empty_document encode read_storage s h.head ch h.changes
            h.is_file m,
      )

  Shown-stale :
      (s : LocalFile (FileOp B) Buffer) (v : Snapshot (FileOp B)) (ch : Change (FileOp B))
      → Shown s v
      → Valid ch.delta
      → ch.rev_num ≤ v.rev_num
      → (t : LocalFile (FileOp B) Buffer) × Shown t v
        × (BaseFile.append_change (local_file (file_class hash size) encode read_storage) ch s
            ≡ (ok false, t))
  Shown-stale s v ch h valid b =
      let n = Shown-rev_num s v h in
      let (t, g, f) =
        local-append_change (file_laws hash size) empty_document encode read_storage s h.head ch
          h.changes h.is_file valid in
      let z : ltb (suc (length h.changes)) ch.rev_num ≡ false = ground (arith, n, b) in
      let y : (ch.rev_num == suc (length h.changes)) ≡ false = ground (arith, n, b) in
      (
        t,
        record { head = h.head; changes = h.changes; is_file = rw y at g; shows = h.shows },
        f ∙ rw (z, y) refl,
      )

  -- A local file is a file as its users rely on it.
  pub local_file-FileLaws :
      FileLaws hash size (local_file (file_class hash size) encode read_storage)
  local_file-FileLaws = record {
    Shows = Shown;
    document = Shown-IsDocument;
    read = Shown-read;
    number = λ s v h. (
      s,
      h,
      local-current_rev_num (file_laws hash size) empty_document encode read_storage s h.head
            h.changes h.is_file
          ∙ ap (λ n. (ok n, s)) (sym (Shown-rev_num s v h)),
    );
    append = Shown-append;
    stale = Shown-stale;
  }

  -- What shows in an existing file, as the contract calls it.
  pub Shown-Shows :
      (s : LocalFile (FileOp B) Buffer) (v : Snapshot (FileOp B))
      → Shown s v
      → local_file-FileLaws.Shows s v
  unfolding local_file-FileLaws
  Shown-Shows s v h = h
