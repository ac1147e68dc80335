-- ===== src/FileStoreLocal/LocalFile/Reading.antt =====
-- About reading a snapshot from local-modules/@bayou/file-store-local/LocalFile.js.
use bayou.Prelude.{
  ℕ, suc, ◌≤◌, ◌≡◌, refl, ◌∙◌, ap, true, false, Bool-cases, inl, inr, Option, none, some, List, [],
  ◌∷◌, Result, ok, err, bad_value, revision_not_available, ◌>>=◌, take, length, arith, subst, ltb,
  leb, ◌==◌, nat_eq, if◌then◌else◌,
}
use bayou.Ot.Delta.{DeltaClass, Delta}
use bayou.Ot.Delta.Laws.{IsDeltaClass}
use bayou.Ot.Change.{Change}
use bayou.Ot.Snapshot.{empty}
use bayou.Ot.Snapshot.Chunks.{compose_each}
use bayou.FileStore.BaseFile
use bayou.FileStoreLocal.SparseArray.{length-full}
use bayou.FileStoreLocal.LocalFile.{
  LocalFile, local_file, make_snapshot, get_or_make, read_storage_if_necessary, impl_get_snapshot,
}
use bayou.FileStoreLocal.LocalFile.Memory.{
  IsFile, at_revision, rev_at, read-IsFile, local-make_snapshot, local-current_rev_num,
}

module _ {Op Buffer : Type 0} {c : DeltaClass Op} {Valid : Delta Op → Type 0}
    (laws : IsDeltaClass c Valid) (empty_document : c.impl_is_document [] ≡ true)
    (encode : Change Op → Buffer)
    (read_storage : LocalFile Op Buffer → Result (Unit {0}) × LocalFile Op Buffer) where
  local-get_or_make :
      (s : LocalFile Op Buffer) (head : Change Op) (l : List (Change Op)) (r : ℕ)
      (f : IsFile laws s head l)
      → r ≤ length l
      → (t : LocalFile Op Buffer) × IsFile laws t head l
        × (t ≡ record s { snapshot = t.snapshot })
        × (get_or_make c encode read_storage r s.snapshot s ≡ (
          if ltb r f.kept_at
              then ok none
              else (compose_each c empty (take r l) >>= λ u. ok (some u)),
          t,
        ))
  unfolding make_snapshot
  local-get_or_make s head l r f q =
      let p = rev_at laws empty_document encode read_storage l f.kept_at f.kept f.kept_bound in
      let n : length s.changes ≡ suc (length l) = ap length f.holds ∙ length-full (head ∷ l) in
      let b = at_revision laws empty_document encode read_storage l r f.valid f.numbered in
      elim (Bool-cases (f.kept.to.rev_num == r)) [
        | inl e ↦
            let z : ltb r f.kept_at ≡ false = ground (arith, e, p) in
            let y : f.kept_at ≡ r = ground (arith, e, p) in
            (
              s,
              f,
              refl,
              rw (f.keeps, e, z)
                  (rw (subst (λ k. compose_each c empty (take k l) ≡ ok f.kept.to) y f.kept.runs)
                    refl),
            )
        | inr e ↦ elim (Bool-cases (ltb r f.kept_at)) [
          | inl h ↦ (
            s,
            f,
            refl,
            let z : (r == f.kept.to.rev_num) ≡ false = ground (arith, e) in
                let y : leb r f.kept.to.rev_num ≡ true = ground (arith, h, p) in
                let k : (suc r == length s.changes) ≡ false = ground (arith, h, f.kept_bound, n) in
                rw (f.keeps, e, h, z, y, k) refl,
          )
          | inr h ↦ elim (Bool-cases (suc r == length s.changes)) [
            | inl k ↦ (
              record s { snapshot = ok (some b.to) },
              record {
                exists = f.exists;
                holds = f.holds;
                numbered = f.numbered;
                valid = f.valid;
                kept_at = r;
                kept_bound = q;
                kept = b;
                keeps = refl;
              },
              refl,
              rw
                  (
                    f.keeps,
                    e,
                    h,
                    local-make_snapshot laws empty_document encode read_storage s head l r f
                        (ground (arith, h)) q,
                    b.runs,
                    k,
                  )
                  refl,
            )
            | inr k ↦ (
              s,
              f,
              refl,
              rw
                  (
                    f.keeps,
                    e,
                    h,
                    local-make_snapshot laws empty_document encode read_storage s head l r f
                        (ground (arith, h)) q,
                    k,
                  )
                  refl,
            )
          ]
        ]
      ]

  -- What reading a revision that the file has gives.
  read_available :
      (s : LocalFile Op Buffer) (head : Change Op) (l : List (Change Op)) (r : ℕ)
      (f : IsFile laws s head l)
      → r ≤ length l
      → (t : LocalFile Op Buffer) × IsFile laws t head l
        × (t ≡ record s { snapshot = t.snapshot })
        × (BaseFile.continue (impl_get_snapshot c encode read_storage r s) BaseFile.or_not_available
            ≡ (
              if ltb r f.kept_at
                  then err revision_not_available
                  else compose_each c empty (take r l),
              t,
            ))
  unfolding impl_get_snapshot
  read_available s head l r f q =
      let (t, g, u, e) = local-get_or_make s head l r f q in
      let b = at_revision laws empty_document encode read_storage l r f.valid f.numbered in
      (
        t,
        g,
        u,
        ap (λ m. BaseFile.continue m BaseFile.or_not_available)
              (BaseFile.then-ok (read_storage_if_necessary c encode read_storage) _ s s
                  (read-IsFile laws empty_document encode read_storage s head l f)
                ∙ e)
            ∙ elim (Bool-cases (ltb r f.kept_at)) [
              | inl h ↦ rw h refl
              | inr h ↦ rw (h, b.runs) refl
            ],
      )

  -- What is asked for: the current revision for `null`.
  abbrev requested : Option ℕ → List (Change Op) → ℕ
  requested none l = length l
  requested (some r) l = r

  -- For a class that meets the contract, reading a revision, or the current one for `null`, of an
  -- existing file gives what composing its changes one by one up to that revision onto the empty
  -- snapshot gives. It throws for a revision beyond the current one, or before that of the snapshot
  -- which is kept. It changes no more than the snapshot that is kept, and leaves an existing file
  -- with the same changes.
  pub local-get_snapshot :
      (s : LocalFile Op Buffer) (head : Change Op) (l : List (Change Op)) (rev_num : Option ℕ)
      (f : IsFile laws s head l)
      → (t : LocalFile Op Buffer) × IsFile laws t head l
        × (t ≡ record s { snapshot = t.snapshot })
        × (BaseFile.get_snapshot (local_file c encode read_storage) rev_num s ≡ (
          if ltb (length l) (requested rev_num l)
              then err bad_value
              else if ltb (requested rev_num l) f.kept_at
              then err revision_not_available
              else compose_each c empty (take (requested rev_num l) l),
          t,
        ))
  unfolding BaseFile.get_snapshot
  local-get_snapshot s head l none f =
      let (t, g, u, e) = read_available s head l (length l) f (omega arith) in
      (
        t,
        g,
        u,
        let z : ltb (length l) (length l) ≡ false = ground arith in
            rw (local-current_rev_num laws empty_document encode read_storage s head l f, z) e,
      )
  local-get_snapshot s head l (some r) f = elim (Bool-cases (leb r (length l))) [
    | inl h ↦
        let (t, g, u, e) = read_available s head l r f (ground (arith, h)) in
        let z : ltb (length l) r ≡ false = ground (arith, h) in
        (
          t,
          g,
          u,
          rw (local-current_rev_num laws empty_document encode read_storage s head l f, h, z) e,
        )
    | inr h ↦
        let z : ltb (length l) r ≡ true = ground (arith, h) in
        (
          s,
          f,
          refl,
          rw (local-current_rev_num laws empty_document encode read_storage s head l f, h, z) refl,
        )
  ]
