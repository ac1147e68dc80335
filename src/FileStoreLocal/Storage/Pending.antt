-- ===== src/FileStoreLocal/Storage/Pending.antt =====
-- About what local-modules/@bayou/file-store-local/LocalFile.js keeps to be written.
use mathlib.Core.List.Permᴰ.{nil}
use bayou.Prelude.{
  ℕ, suc, ◌+◌, ◌≤◌, ◌≡◌, ◌≢◌, refl, ◌∙◌, ap, subst, true, none, List, [], ◌∷◌, ◌++◌, append_assoc,
  length, All, arith, Result, ok, nat_eq, string_eq,
}
use bayou.JsMap
use bayou.Ot.Delta.{DeltaClass, Delta}
use bayou.Ot.Delta.Laws.{IsDeltaClass}
use bayou.Ot.Change.{Change}
use bayou.Ot.Snapshot.{empty}
use bayou.Ot.Snapshot.Chunks.{compose_each}
use bayou.Ot.Snapshot.History.{Numbered}
use bayou.FileStore.BaseFile
use bayou.FileStoreLocal.SparseArray
use bayou.FileStoreLocal.LocalFile.{LocalFile, local_file, make, storage_needs_flush, store_change}
use bayou.FileStoreLocal.LocalFile.Memory.{IsFile}
use bayou.FileStoreLocal.Storage.{Directory, read_storage}
use bayou.FileStoreLocal.Storage.Durable.{append_parts, set-queued}
use bayou.FileStoreLocal.LocalFile.{impl_create, read_storage_if_necessary}
use bayou.FileStoreLocal.LocalFile.Log.{append_next, append-IsFile}
use bayou.FileStoreLocal.Storage.RoundTrip.{IsStored}
use bayou.Ot.Change.{first}

module _ {Op Buffer : Type 0} {c : DeltaClass Op} {Valid : Delta Op → Type 0}
    (laws : IsDeltaClass c Valid) (empty_document : c.impl_is_document [] ≡ true)
    (encode : Change Op → Buffer) (decode : Buffer → Result (Change Op))
    (round_trip : (x : Change Op) → decode (encode x) ≡ ok x) where
  below :
      (n k : ℕ) (l : List (Change Op))
      → Numbered n l
      → length l + n ≤ k
      → All (λ (y : Change Op). y.rev_num ≢ k) l
  below n k [] m h = tt
  below n k (x ∷ l) (q, m) h =
      ((λ e. absurd (omega (arith, e, q, h))), below (suc n) k l m (omega (arith, h)))

  append-IsStored :
      (read : LocalFile Op Buffer → Result (Unit {0}) × LocalFile Op Buffer)
      (s : LocalFile Op Buffer) (directory : Directory Buffer) (head ch : Change Op)
      (l : List (Change Op))
      → IsFile laws s head l
      → IsStored laws empty_document encode decode round_trip s directory head l
      → ch.rev_num ≡ suc (length l)
      → IsStored laws empty_document encode decode round_trip
          (storage_needs_flush (store_change c encode read ch s))
          directory
          head
          (l ++ (ch ∷ []))
  unfolding storage_needs_flush
  append-IsStored read s directory head ch l f d e =
      let b = below 0 ch.rev_num (head ∷ l) (d.first_rev, f.numbered) (omega (arith, e)) in
      let (u, v) =
        append_parts encode decode round_trip (λ (y : Change Op). y.rev_num ≢ ch.rev_num) d.done
          d.rest (subst (All (λ (y : Change Op). y.rev_num ≢ ch.rev_num)) d.split b) in
      record {
        first_rev = d.first_rev;
        done = d.done;
        rest = d.rest ++ (ch ∷ []);
        split = ap (λ k. k ++ (ch ∷ [])) d.split ∙ append_assoc d.done d.rest (ch ∷ []);
        listed = d.listed;
        order = d.order;
        lists = d.lists;
        queues =
            ap (JsMap.set ch.rev_num (encode ch)) d.queues
            ∙ set-queued encode decode round_trip ch d.rest v;
      }

  -- Creating a file that has no directory gives an existing file with the first change, to be written.
  pub create-IsFile :
      (t : LocalFile Op Buffer) × (impl_create c encode (read_storage decode none) make
        ≡ (ok tt, t))
      × IsFile laws t first []
      × IsStored laws empty_document encode decode round_trip t none first []
  unfolding impl_create make read_storage read_storage_if_necessary storage_needs_flush compose_each
      SparseArray.set JsMap.set
  create-IsFile = (
    (impl_create c encode (read_storage decode none) make).1,
    refl,
    record {
      exists = refl;
      holds = refl;
      numbered = tt;
      valid = tt;
      kept_at = 0;
      kept_bound = omega arith;
      kept = record {
        to = empty;
        runs = refl;
        document = empty_document;
        valid = laws.empty_valid;
        rev = omega arith;
      };
      keeps = refl;
    },
    record {
      first_rev = refl;
      done = [];
      rest = first ∷ [];
      split = refl;
      listed = [];
      order = nil;
      lists = refl;
      queues = refl;
    },
  )

  -- For a class that meets the contract and a codec that decodes what it encodes, appending a valid
  -- next change to an existing file adds it. If the directory and what is to be written make up all
  -- the changes, they still do.
  pub append_change-IsStored :
      (read : LocalFile Op Buffer → Result (Unit {0}) × LocalFile Op Buffer)
      (s : LocalFile Op Buffer) (directory : Directory Buffer) (head ch : Change Op)
      (l : List (Change Op))
      → IsFile laws s head l
      → IsStored laws empty_document encode decode round_trip s directory head l
      → Valid ch.delta
      → ch.rev_num ≡ suc (length l)
      → (t : LocalFile Op Buffer) × (BaseFile.append_change (local_file c encode read) ch s
          ≡ (ok true, t))
        × IsFile laws t head (l ++ (ch ∷ []))
        × IsStored laws empty_document encode decode round_trip t directory head (l ++ (ch ∷ []))
  append_change-IsStored read s directory head ch l f d v e = (
    storage_needs_flush (store_change c encode read ch s),
    append_next laws empty_document encode read s head ch l f e,
    append-IsFile laws empty_document encode read s head ch l f v e,
    append-IsStored read s directory head ch l f d e,
  )
