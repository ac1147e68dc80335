-- ===== src/FileStoreLocal/LocalFile/Log.antt =====
-- About reading and appending a change in local-modules/@bayou/file-store-local/LocalFile.js.
use bayou.Prelude.{
  nth, nth-inside, nth-outside, ℕ, suc, ◌+◌, ◌≡◌, refl, sym, ◌∙◌, ap, true, false, Bool-cases, inl,
  inr, none, some, List, [], ◌∷◌, ◌++◌, Result, ok, err, bad_value, length, length-append, arith,
  append-All, ltb, leb, ◌==◌, nat_eq, if◌then◌else◌,
}
use mathlib.Core.List.{map-append}
use bayou.Ot.Delta.{DeltaClass, Delta}
use bayou.Ot.Delta.Laws.{IsDeltaClass}
use bayou.Ot.Change.{Change}
use bayou.Ot.Snapshot.{empty}
use bayou.Ot.Snapshot.Chunks.{compose_each}
use bayou.Ot.Snapshot.History.{append-Numbered, take-append, Composed}
use bayou.FileStore.BaseFile
use bayou.FileStoreLocal.SparseArray
use bayou.FileStoreLocal.SparseArray.{
  full, length-full, get-full, set-full, elements-full, slice-full,
}
use bayou.FileStoreLocal.LocalFile.{
  LocalFile, local_file, storage_needs_flush, impl_append_change, append_if_next, store_change,
  impl_get_change,
}
use bayou.FileStoreLocal.LocalFile.Memory.{IsFile, read-IsFile, local-current_rev_num}

module _ {Op Buffer : Type 0} {c : DeltaClass Op} {Valid : Delta Op → Type 0}
    (laws : IsDeltaClass c Valid) (empty_document : c.impl_is_document [] ≡ true)
    (encode : Change Op → Buffer)
    (read_storage : LocalFile Op Buffer → Result (Unit {0}) × LocalFile Op Buffer) where
  -- Reading a change of an existing file gives it, and throws for a revision beyond the current one.
  pub local-get_change :
      (s : LocalFile Op Buffer) (head : Change Op) (l : List (Change Op)) (r : ℕ)
      → IsFile laws s head l
      → BaseFile.get_change (local_file c encode read_storage) r s
        ≡ (elim (nth r (head ∷ l)) [ some ch ↦ ok ch | none ↦ err bad_value ], s)
  unfolding BaseFile.get_change impl_get_change
  local-get_change s head l r f =
      let g : SparseArray.get r s.changes ≡ nth r (head ∷ l) =
        ap (SparseArray.get r) f.holds ∙ get-full r (head ∷ l) in
      elim (Bool-cases (leb r (length l))) [
        | inl h ↦
            let (x, e) = nth-inside r (head ∷ l) (ground (arith, h)) in
            rw
              (
                local-current_rev_num laws empty_document encode read_storage s head l f,
                h,
                read-IsFile laws empty_document encode read_storage s head l f,
                g,
                e,
              )
              refl
        | inr h ↦
            let e = nth-outside r (head ∷ l) (ground (arith, h)) in
            rw (local-current_rev_num laws empty_document encode read_storage s head l f, h, e) refl
      ]

  -- The same snapshot of an equal list of changes.
  abbrev carry : (l m : List (Change Op)) → l ≡ m → Composed laws empty l → Composed laws empty m
  carry l m e b = record {
    to = b.to;
    runs = ap (λ k. compose_each c empty k) (sym e) ∙ b.runs;
    document = b.document;
    valid = b.valid;
    rev = b.rev ∙ ap (λ k. length k + 0) e;
  }

  pub append-IsFile :
      (s : LocalFile Op Buffer) (head ch : Change Op) (l : List (Change Op))
      → IsFile laws s head l
      → Valid ch.delta
      → ch.rev_num ≡ suc (length l)
      → IsFile laws
          (storage_needs_flush (store_change c encode read_storage ch s))
          head
          (l ++ (ch ∷ []))
  unfolding storage_needs_flush
  append-IsFile s head ch l f v e = record {
    exists = f.exists;
    holds =
        ap (λ n. SparseArray.set n ch s.changes) e
        ∙ ap (λ a. SparseArray.set (suc (length l)) ch a) f.holds
        ∙ set-full ch (head ∷ l);
    numbered = append-Numbered 1 l ch f.numbered (omega (arith, e));
    valid =
        rw (map-append (λ (x : Change Op). x.delta) l (ch ∷ []))
          (append-All Valid _ _ f.valid (v, tt));
    kept_at = f.kept_at;
    kept_bound = omega (arith, f.kept_bound, length-append l (ch ∷ []));
    kept = carry _ _ (sym (take-append l (ch ∷ []) f.kept_at f.kept_bound)) f.kept;
    keeps = f.keeps;
  }

  pub append_next :
      (s : LocalFile Op Buffer) (head ch : Change Op) (l : List (Change Op))
      → IsFile laws s head l
      → ch.rev_num ≡ suc (length l)
      → BaseFile.append_change (local_file c encode read_storage) ch s
        ≡ (ok true, storage_needs_flush (store_change c encode read_storage ch s))
  unfolding BaseFile.append_change impl_append_change append_if_next
  append_next s head ch l f e =
      let n : length s.changes ≡ suc (length l) = ap length f.holds ∙ length-full (head ∷ l) in
      let h : leb ch.rev_num (length s.changes) ≡ true = ground (arith, n, e) in
      let g : leb (length s.changes) ch.rev_num ≡ true = ground (arith, n, e) in
      rw (h, read-IsFile laws empty_document encode read_storage s head l f, f.exists, g) refl

  -- For a class that meets the contract and a change with a valid delta, appending to an existing
  -- file adds the change and gives true when its revision is the next one, throws when it is beyond
  -- that, and gives false when the file has it. What results is an existing file with those
  -- changes.
  pub local-append_change :
      (s : LocalFile Op Buffer) (head ch : Change Op) (l : List (Change Op))
      → IsFile laws s head l
      → Valid ch.delta
      → (t : LocalFile Op Buffer) × IsFile laws t head
          (if ch.rev_num == suc (length l) then l ++ (ch ∷ []) else l)
        × (BaseFile.append_change (local_file c encode read_storage) ch s ≡ (
          if ltb (suc (length l)) ch.rev_num
              then err bad_value
              else ok (ch.rev_num == suc (length l)),
          t,
        ))
  unfolding BaseFile.append_change impl_append_change append_if_next
  local-append_change s head ch l f v =
      let n : length s.changes ≡ suc (length l) = ap length f.holds ∙ length-full (head ∷ l) in
      let read = read-IsFile laws empty_document encode read_storage s head l f in
      elim (Bool-cases (leb ch.rev_num (suc (length l)))) [
        | inl h ↦
            let h' : leb ch.rev_num (length s.changes) ≡ true = ground (arith, n, h) in
            let z : ltb (suc (length l)) ch.rev_num ≡ false = ground (arith, h) in
            elim (Bool-cases (ch.rev_num == suc (length l))) [
              | inl e ↦
                  let q : ch.rev_num ≡ suc (length l) = ground (arith, e) in
                  (
                    storage_needs_flush (store_change c encode read_storage ch s),
                    rw e (append-IsFile s head ch l f v q),
                    append_next s head ch l f q ∙ rw (e, z) refl,
                  )
              | inr e ↦
                  let g : leb (length s.changes) ch.rev_num ≡ false = ground (arith, n, e, h) in
                  (s, rw e f, rw (h', read, f.exists, g, e, z) refl)
            ]
        | inr h ↦
            let h' : leb ch.rev_num (length s.changes) ≡ false = ground (arith, n, h) in
            let z : ltb (suc (length l)) ch.rev_num ≡ true = ground (arith, h) in
            let e : (ch.rev_num == suc (length l)) ≡ false = ground (arith, h) in
            (s, rw e f, rw (h', z) refl)
      ]
