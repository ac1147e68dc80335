-- ===== src/DocServer/Part/Append.antt =====
-- About appending a change in local-modules/@bayou/doc-server/BaseControl.js.
use bayou.Prelude.{
  ℕ, zero, suc, ◌≡◌, ◌≢◌, refl, ◌∙◌, ap, true, false, Bool-cases, inl, inr, none, some, List, [],
  ◌∷◌, ◌++◌, string_eq, Eq, ◌==◌, nat_eq, ok, leb, length, length-append, nth, nth-append,
  nth-outside, if◌then◌else◌, arith, path_hash_mismatch, beq_self, beq_ne,
}
use bayou.Prelude.Int.{ℤ, pos}
use bayou.Ot.Delta.{Delta}
use bayou.Ot.Change.{Change, change}
use bayou.Ot.Snapshot
use bayou.Ot.Snapshot.{Snapshot}
use bayou.Ot.Snapshot.History.{append-Numbered}
use bayou.FileStore.StoragePath
use bayou.FileStore.Op.{FileOp, write_path, op_write_path}
use bayou.FileStore.Delta.{file_class}
use bayou.FileStore.Delta.Meaning.{apply}
use bayou.FileStore.Snapshot.{check_path_is, check_path_absent}
use bayou.FileStore.Snapshot.Laws.{checks, blob_at-compose}
use bayou.DocServer.Part.{Part, number_value, change_value, revision_number_path, path_for_change}
use bayou.DocServer.Part.Calls.{append_checks, change_ops, base_rev_num}
use bayou.DocServer.Part.Paths.{
  revision_number_path-is_instance, path_for_change-is_instance, path_for_change-eq_iff,
  revision≢change,
}
use bayou.DocServer.Part.Log.{IsPart, IsLog, stored, encoded}

module _ {Op B S : Type 0} (part : Part Op B S) (p : IsPart part) where
  -- The operations that store a change.
  abbrev pub store_ops : Change Op → Delta (FileOp B)
  store_ops ch =
      write_path (path_for_change part ch.rev_num) (part.encode (change_value ch))
      ∷ write_path (revision_number_path part) (part.encode (number_value (pos ch.rev_num)))
      ∷ []

  pub change_ops-eq : (ch : Change Op) → change_ops part ch ≡ ok (store_ops ch)
  unfolding change_ops op_write_path StoragePath.check
  change_ops-eq ch =
      rw
        (
          path_for_change-is_instance part ch.rev_num p.is_path,
          revision_number_path-is_instance part p.is_path,
        )
        refl

  module _ (v : Snapshot (FileOp B)) (log : List (Change Op)) (current oldest : ℕ)
      (l : IsLog part v log current oldest) where
    -- Whether the base of a change is the revision that is stored.
    base_check :
        (m : ℤ)
        → check_path_is part.hash part.is_hash v
            (revision_number_path part)
            (part.hash (part.encode (number_value m)))
          ≡ ok (
              if part.hash (part.encode (number_value (pos current)))
                == part.hash (part.encode (number_value m))
              then none
              else some path_hash_mismatch)
    base_check m =
        (checks part.hash part.is_hash v (revision_number_path part)
          (part.hash (part.encode (number_value m))) l.document
          (revision_number_path-is_instance part p.is_path)
          (p.hash-is_hash (part.encode (number_value m)))).2
        ∙ rw l.revision refl

    next_absent :
        check_path_absent part.hash part.is_hash v (path_for_change part (suc current)) ≡ ok none
    next_absent =
        let h : leb oldest (suc current) ≡ true = ground (arith, l.kept) in
        (checks part.hash part.is_hash v (path_for_change part (suc current))
          (part.hash (part.encode (number_value (pos current)))) l.document
          (path_for_change-is_instance part (suc current) p.is_path)
          (p.hash-is_hash (part.encode (number_value (pos current))))).0
        ∙ rw (l.changes (suc current), h, nth-outside (suc current) log (omega (arith, l.count)))
            refl

    -- The checks pass for the next revision alone.
    pub append_checks-next : append_checks part (suc current) v ≡ ok none
    unfolding append_checks
    append_checks-next =
        rw
          (
            base_check (pos current),
            beq_self (part.hash (part.encode (number_value (pos current)))),
          )
          next_absent

    other_base :
        (n : ℕ)
        → n ≢ suc current
        → (part.hash (part.encode (number_value (pos current)))
            == part.hash (part.encode (number_value (base_rev_num n))))
          ≡ false
    other_base n h =
        elim (Bool-cases (
          part.hash (part.encode (number_value (pos current)))
          == part.hash (part.encode (number_value (base_rev_num n))))) [
            | inl e ↦ absurd (
                is_next n h
                  (p.hash-inj (pos current) (base_rev_num n) ((string_eq.beq_iff _ _).0 e)))
            | inr e ↦ e
          ]
      where
        is_next : (n : ℕ) → n ≢ suc current → pos current ≢ base_rev_num n
        is_next zero h e = ground arith
        is_next (suc n) h e = h (ground arith)

    pub append_checks-other :
        (n : ℕ) → n ≢ suc current → append_checks part n v ≡ ok (some path_hash_mismatch)
    unfolding append_checks
    append_checks-other n h = rw (base_check (base_rev_num n), other_base n h) refl

    stored_next :
        (i : ℕ) (ch : Change Op)
        → ch.rev_num ≡ suc current
        → (if ch.rev_num == i
            then some (part.encode (change_value ch))
            else stored part log oldest i)
          ≡ (if leb oldest i
              then encoded part (if i == length log then some ch else nth i log)
              else none)
    stored_next i ch n = elim (Bool-cases (ch.rev_num == i)) [
      | inl q ↦
          let a : leb oldest i ≡ true = ground (arith, q, n, l.kept) in
          let b : (i == length log) ≡ true = ground (arith, q, n, l.count) in rw (q, a, b) refl
      | inr q ↦ let b : (i == length log) ≡ false = ground (arith, q, n, l.count) in rw (q, b) refl
    ]

    -- What storing the next change leaves.
    module _ ⦃e : Eq B⦄ (size : B → ℕ) where
      pub stored-IsLog :
          (ch : Change Op) (w : Snapshot (FileOp B)) (r : ℕ)
          → ch.rev_num ≡ suc current
          → Snapshot.compose (file_class part.hash size) v (change r (store_ops ch)) ≡ ok w
          → IsLog part w (log ++ (ch ∷ [])) (suc current) oldest
      unfolding apply
      stored-IsLog ch w r n c =
          let (t, f, d, _, m) =
            blob_at-compose part.hash size v (change r (store_ops ch)) l.document (tt, (tt, tt)) in
          let same : t ≡ w = cc in
          record {
            document = rw same at d;
            count = omega (arith, length-append log (ch ∷ []), l.count);
            numbered = append-Numbered 0 log ch l.numbered (omega (arith, n, l.count));
            kept = omega (arith, l.kept);
            revision =
                rw same at (m (revision_number_path part))
                ∙ rw (beq_self (revision_number_path part))
                    (ap (λ k. some (part.encode (number_value (pos k)))) n);
            changes = λ i.
                rw same at (m (path_for_change part i))
                ∙ rw
                    (
                      beq_ne (revision_number_path part) (path_for_change part i)
                          (revision≢change part i),
                      path_for_change-eq_iff part ch.rev_num i,
                      nth-append i log ch,
                      l.changes i,
                    )
                    (stored_next i ch n);
          }
