-- ===== src/FileStoreLocal/Storage/RoundTrip.antt =====
-- About a flush by local-modules/@bayou/file-store-local/LocalFile.js, and a read of what it wrote.
use mathlib.Core.List.{Permᴰ}
use mathlib.Core.List.Permᴰ.{symm, append_right}
use bayou.Prelude.{
  ℕ, suc, ◌+◌, ◌≤◌, ◌<◌, ◌≡◌, refl, sym, ◌∙◌, ap, subst, true, false, some, List, [], ◌∷◌, ◌++◌,
  map, append-nil, length, All, arith, Result, ok, ◌==◌, nat_eq, ltb, String, string_eq,
}
use bayou.Ot.Delta.{DeltaClass, Delta}
use bayou.Ot.Delta.Laws.{IsDeltaClass}
use bayou.Ot.Change.{Change}
use bayou.Ot.Snapshot.{empty}
use bayou.Ot.Snapshot.Chunks.{compose_each}
use bayou.Ot.Snapshot.History.{Numbered}
use bayou.PromiseUtil.Condition.{set_value}
use bayou.FileStoreLocal.SparseArray.{full, length-full}
use bayou.FileStoreLocal.LocalFile.{LocalFile, make}
use bayou.FileStoreLocal.LocalFile.Memory.{IsFile}
use bayou.FileStoreLocal.Storage.{
  Directory, entries, read_storage, loaded, loaded_or_thrown, write_storage, write_files, flush,
}
use bayou.FileStoreLocal.Storage.Order.{place, place-Permᴰ, Numbered-perm, perm-All, perm-length}
use bayou.FileStoreLocal.Storage.Durable.{
  queued, saved, IsSmall, append_parts, write_files-saved, read_files-saved,
}

module _ {Op Buffer : Type 0} {c : DeltaClass Op} {Valid : Delta Op → Type 0}
    (laws : IsDeltaClass c Valid) (empty_document : c.impl_is_document [] ≡ true)
    (encode : Change Op → Buffer) (decode : Buffer → Result (Change Op))
    (round_trip : (x : Change Op) → decode (encode x) ≡ ok x) where
  abbrev pub saved_file : Change Op → String × Buffer
  saved_file = saved encode decode round_trip

  -- The directory has the files of the first changes, in some order, and what is to be written is
  -- those of the rest.
  pub record IsStored (s : LocalFile Op Buffer) (directory : Directory Buffer) (head : Change Op)
      (l : List (Change Op)) : Type 0 where
    pub first_rev : head.rev_num ≡ 0
    pub done : List (Change Op)
    pub rest : List (Change Op)
    pub split : head ∷ l ≡ done ++ rest
    pub listed : List (Change Op)
    pub order : Permᴰ listed done
    pub lists : entries directory ≡ map saved_file listed
    pub queues : s.to_write ≡ map (queued encode decode round_trip) rest

  small :
      (n : ℕ) (l : List (Change Op))
      → Numbered n l
      → length l + n ≤ 4294967296
      → All (IsSmall encode decode round_trip) l
  small n [] m h = tt
  small n (x ∷ l) (q, m) h = (omega (arith, q, h), small (suc n) l m (omega (arith, h)))

  -- What a read of the files of the changes loads.
  abbrev reloaded : Change Op → List (Change Op) → LocalFile Op Buffer → LocalFile Op Buffer
  reloaded head l s = record s {
    should_exist = some true;
    changes = full (head ∷ l);
    snapshot = ok (some empty);
    to_write = [];
    dirty = false;
    change_condition = set_value true s.change_condition;
  }

  read-saved :
      (s : LocalFile Op Buffer) (head : Change Op) (l n : List (Change Op))
      → Numbered 0 (head ∷ l)
      → length l < 4294967295
      → Permᴰ n (head ∷ l)
      → read_storage decode (some (map saved_file n)) s ≡ (ok tt, reloaded head l s)
  unfolding read_storage loaded
  read-saved s head l n m h p =
      let k =
        perm-All (IsSmall encode decode round_trip) (symm p)
          (small 0 (head ∷ l) m (omega (arith, h))) in
      let e =
        read_files-saved encode decode round_trip n [] 0 [] (Numbered-perm (head ∷ l) n m p) k in
      let z : length n + 0 ≡ suc (length l) = omega (arith, perm-length p) in
      let y : (suc (length l) == length (full (head ∷ l))) ≡ true =
        ground (arith, length-full (head ∷ l)) in
      let w : ltb 0 (suc (length l)) ≡ true = ground arith in
      ap (loaded_or_thrown decode s) (
        e
        ∙ ap (λ k. ok (k, place n [])) z
        ∙ ap (λ a. ok (suc (length l), a)) (place-Permᴰ (head ∷ l) n m p))
      ∙ rw (y, w) refl

  reloaded-IsFile :
      (s t : LocalFile Op Buffer) (head : Change Op) (l : List (Change Op))
      → IsFile laws s head l
      → IsFile laws (reloaded head l t) head l
  unfolding compose_each
  reloaded-IsFile s t head l f = record {
    exists = refl;
    holds = refl;
    numbered = f.numbered;
    valid = f.valid;
    kept_at = 0;
    kept_bound = omega arith;
    kept = record {
      to = empty;
      runs = refl;
      document = empty_document;
      valid = laws.empty_valid;
      rev = omega arith;
    };
    keeps = refl;
  }

  all_listed :
      (s : LocalFile Op Buffer) (head : Change Op) (l n : List (Change Op))
      → head.rev_num ≡ 0
      → Permᴰ n (head ∷ l)
      → s.to_write ≡ []
      → IsStored s (some (map saved_file n)) head l
  all_listed s head l n z p e = record {
    first_rev = z;
    done = head ∷ l;
    rest = [];
    split = sym (append-nil (head ∷ l));
    listed = n;
    order = p;
    lists = refl;
    queues = e;
  }

  -- For a class that meets the contract, a codec that decodes what it encodes, and an existing file
  -- of at most 2^32 - 1 changes, some of which the directory has and the rest of which are to be
  -- written, a flush leaves the file as it was and the directory with all the changes. A new object
  -- that reads the directory, listed in any order, has the same existing file.
  pub flush-read_storage :
      (s : LocalFile Op Buffer) (directory : Directory Buffer) (head : Change Op)
      (l listing : List (Change Op))
      → IsFile laws s head l
      → IsStored s directory head l
      → length l < 4294967295
      → Permᴰ listing (head ∷ l)
      → (t : LocalFile Op Buffer) × (n : List (Change Op)) × (flush s directory
          ≡ (t, some (map saved_file n)))
        × Permᴰ n (head ∷ l)
        × IsFile laws t head l
        × IsStored t (some (map saved_file n)) head l
        × ((u : LocalFile Op Buffer) × (read_storage decode (some (map saved_file listing)) make
              ≡ (ok tt, u))
            × IsFile laws u head l
            × IsStored u (some (map saved_file listing)) head l)
  unfolding flush write_storage
  flush-read_storage s directory head l listing f d h q =
      let n = d.listed ++ d.rest in
      let p : Permᴰ n (head ∷ l) = subst (Permᴰ n) (sym d.split) (append_right d.rest d.order) in
      let m : Numbered 0 (head ∷ l) = (d.first_rev, f.numbered) in
      let k =
        perm-All (IsSmall encode decode round_trip) (symm p)
          (small 0 (head ∷ l) m (omega (arith, h))) in
      let (u, v) =
        append_parts encode decode round_trip (IsSmall encode decode round_trip) d.listed d.rest
          k in
      let e : write_files s.to_write (entries directory) ≡ map saved_file n =
        ap (λ q. write_files q (entries directory)) d.queues
        ∙ ap (write_files (map (queued encode decode round_trip) d.rest)) d.lists
        ∙ write_files-saved encode decode round_trip d.rest d.listed
            (Numbered-perm (head ∷ l) n m p) u v in
      let t : LocalFile Op Buffer = record s { dirty = false; to_write = [] } in
      (
        t,
        n,
        rw (f.exists, e) refl,
        p,
        record {
          exists = f.exists;
          holds = f.holds;
          numbered = f.numbered;
          valid = f.valid;
          kept_at = f.kept_at;
          kept_bound = f.kept_bound;
          kept = f.kept;
          keeps = f.keeps;
        },
        all_listed t head l n d.first_rev p refl,
        (
          reloaded head l make,
          read-saved make head l listing m h q,
          reloaded-IsFile s make head l f,
          all_listed (reloaded head l make) head l listing d.first_rev q refl,
        ),
      )
