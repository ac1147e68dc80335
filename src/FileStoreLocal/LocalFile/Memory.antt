-- ===== src/FileStoreLocal/LocalFile/Memory.antt =====
-- About what local-modules/@bayou/file-store-local/LocalFile.js keeps in memory.
use bayou.Prelude.{
  ℕ, suc, ◌-◌, ◌≤◌, ◌≡◌, refl, sym, ◌∙◌, ap, true, false, Bool-cases, inl, inr, some, List, [], ◌∷◌,
  Result, ok, err, ◌>>=◌, take, drop, length, arith, leb, ◌==◌, nat_eq,
}
use bayou.Ot.Delta.{DeltaClass, Delta}
use bayou.Ot.Delta.Laws.{IsDeltaClass}
use bayou.Ot.Change.{Change}
use bayou.Ot.Snapshot.{Snapshot, empty}
use bayou.Ot.Snapshot.Chunks.{compose_each, compose_all-eq, AllValid, take-AllValid, drop-AllValid}
use bayou.Ot.Snapshot.History.{
  Numbered, take-Numbered, take-split, length-take, compose_each-append, Composed, composed,
}
use bayou.FileStore.BaseFile
use bayou.FileStoreLocal.SparseArray
use bayou.FileStoreLocal.SparseArray.{
  full, length-full, get-full, set-full, elements-full, slice-full,
}
use bayou.FileStoreLocal.LocalFile.{
  LocalFile, settled, local_file, make_snapshot, compose_changes, last_rev_num,
  read_storage_if_necessary, impl_current_rev_num,
}

settled-some :
    {Op : Type 0} (m : Result (Snapshot Op)) → settled (some m) ≡ (m >>= λ t. ok (some t))
settled-some (ok t) = refl
settled-some (err e) = refl

module _ {Op Buffer : Type 0} {c : DeltaClass Op} {Valid : Delta Op → Type 0}
    (laws : IsDeltaClass c Valid) where
  -- An existing file in memory: its first change, and those behind it.
  pub record IsFile (s : LocalFile Op Buffer) (head : Change Op) (l : List (Change Op))
      : Type 0 where
    pub exists : s.should_exist ≡ some true
    pub holds : s.changes ≡ full (head ∷ l)
    pub numbered : Numbered 1 l
    pub valid : AllValid laws l
    pub kept_at : ℕ
    pub kept_bound : kept_at ≤ length l
    pub kept : Composed laws empty (take kept_at l)
    pub keeps : s.snapshot ≡ ok (some kept.to)

module _ {Op Buffer : Type 0} {c : DeltaClass Op} {Valid : Delta Op → Type 0}
    (laws : IsDeltaClass c Valid) (empty_document : c.impl_is_document [] ≡ true)
    (encode : Change Op → Buffer)
    (read_storage : LocalFile Op Buffer → Result (Unit {0}) × LocalFile Op Buffer) where
  -- The snapshot of a revision, composed from the start.
  pub at_revision :
      (l : List (Change Op)) (r : ℕ)
      → AllValid laws l
      → Numbered 1 l
      → Composed laws empty (take r l)
  at_revision l r v n =
      composed laws empty (take r l) laws.empty_valid (take-AllValid laws r l v) empty_document
        (take-Numbered r 1 l n)

  pub read-IsFile :
      (s : LocalFile Op Buffer) (head : Change Op) (l : List (Change Op))
      → IsFile laws s head l
      → read_storage_if_necessary c encode read_storage s ≡ (ok tt, s)
  unfolding read_storage_if_necessary
  read-IsFile s head l f = rw f.holds

  pub rev_at :
      (l : List (Change Op)) (k : ℕ) (b : Composed laws empty (take k l))
      → k ≤ length l
      → b.to.rev_num ≡ k
  rev_at l k b h = omega (arith, b.rev, length-take k l h)

  -- Composing the changes between a revision and a later one onto the snapshot of the first.
  slice_composed :
      (l : List (Change Op)) (k r : ℕ) (b : Composed laws empty (take k l))
      → AllValid laws l
      → Numbered 1 l
      → k ≤ r
      → r ≤ length l
      → compose_changes c encode read_storage b.to (take (r - k) (drop k l))
        ≡ (compose_each c empty (take r l) >>= λ t. ok (some t))
  slice_composed l k r b v n h q =
      let slice = take (r - k) (drop k l) in
      let vs : AllValid laws slice =
        take-AllValid laws (r - k) (drop k l) (drop-AllValid laws k l v) in
      let t = at_revision l r v n in
      ap settled (
        compose_all-eq laws (length slice) 999 b.to slice b.valid vs b.document (omega arith)
        ∙ ap (λ m. some m)
            (sym (ap (λ m. m >>= λ u. compose_each c u slice) b.runs)
              ∙ sym (compose_each-append laws empty (take k l) slice)
              ∙ sym (ap (λ m. compose_each c empty m) (take-split k r l h))))
      ∙ settled-some (compose_each c empty (take r l))

  stored_slice :
      (head : Change Op) (l : List (Change Op)) (k r : ℕ)
      → SparseArray.elements (SparseArray.slice (suc k) (suc r) (full (head ∷ l)))
        ≡ ok (take (r - k) (drop k l))
  stored_slice head l k r =
      ap SparseArray.elements (slice-full (suc k) (suc r) (head ∷ l))
      ∙ elements-full (take (suc r - suc k) (drop k l))
      ∙ ap (λ n. ok (take n (drop k l))) (omega arith)

  pub local-make_snapshot :
      (s : LocalFile Op Buffer) (head : Change Op) (l : List (Change Op)) (r : ℕ)
      (f : IsFile laws s head l)
      → f.kept_at ≤ r
      → r ≤ length l
      → make_snapshot c encode read_storage s.changes r f.kept.to
        ≡ (compose_each c empty (take r l) >>= λ t. ok (some t))
  unfolding make_snapshot
  local-make_snapshot s head l r f h q =
      let p = rev_at l f.kept_at f.kept f.kept_bound in
      elim (Bool-cases (r == f.kept_at)) [
        | inl b ↦
            let y : (r == f.kept.to.rev_num) ≡ true = ground (arith, b, p) in
            rw y (
              sym (
                ap (λ n. compose_each c empty (take n l) >>= λ t. ok (some t)) (ground (arith, b))
                ∙ ap (λ m. m >>= λ t. ok (some t)) f.kept.runs))
        | inr b ↦
            let y : (r == f.kept.to.rev_num) ≡ false = ground (arith, b, p) in
            let z : leb r f.kept.to.rev_num ≡ false = ground (arith, b, h, p) in
            rw
              (
                y,
                z,
                f.holds,
                stored_slice head l f.kept.to.rev_num r ∙ ap (λ k. ok (take (r - k) (drop k l))) p,
              )
              (slice_composed l f.kept_at r f.kept f.valid f.numbered h q)
      ]

  pub local-current_rev_num :
      (s : LocalFile Op Buffer) (head : Change Op) (l : List (Change Op))
      → IsFile laws s head l
      → BaseFile.current_rev_num (local_file c encode read_storage) s ≡ (ok (length l), s)
  unfolding BaseFile.current_rev_num impl_current_rev_num last_rev_num
  local-current_rev_num s head l f = rw (read-IsFile s head l f, f.holds, length-full l) refl
