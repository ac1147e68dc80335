-- ===== src/DocServer/Part/Init.antt =====
-- About the operations that set a part up, in local-modules/@bayou/doc-server/BaseControl.js.
use bayou.Prelude.{
  ℕ, zero, suc, ◌≡◌, refl, sym, ◌∙◌, true, false, Option, none, [], ◌∷◌, String, string_eq, nat_eq,
  Eq, ◌==◌, beq_self, beq_ne, ok, leb, arith,
}
use bayou.Prelude.Int.{pos}
use bayou.Ot.Delta.{Delta}
use bayou.Ot.Change.{change, first}
use bayou.Ot.Snapshot
use bayou.Ot.Snapshot.{Snapshot}
use bayou.FileStore.StoragePath
use bayou.FileStore.Op.{
  FileOp, delete_path_prefix, write_path, op_write_path, op_delete_path_prefix,
}
use bayou.FileStore.Delta.{file_class}
use bayou.FileStore.Delta.Meaning.{apply}
use bayou.FileStore.Snapshot.Laws.{IsDocument, blob_at, blob_at-compose, read_path}
use bayou.DocServer.Part.{
  Part, number_value, change_value, revision_number_path, path_for_change, impl_init_ops,
  stored_snapshot_in, stored_snapshot_path,
}
use bayou.DocServer.Part.Paths.{
  revision_number_path-is_instance, path_for_change-is_instance, path_for_change-eq_iff,
  revision≢change, below-change, below-snapshot, snapshot≢change, snapshot≢revision,
  stored_snapshot_path-is_instance,
}
use bayou.DocServer.Part.Log.{IsPart, IsLog, stored}

module _ {Op B S : Type 0} (part : Part Op B S) (p : IsPart part) where
  -- The operations, in their order.
  abbrev pub init_ops : Delta (FileOp B)
  init_ops =
      delete_path_prefix part.path_prefix
      ∷ write_path (revision_number_path part) (part.encode (number_value (pos 0)))
      ∷ write_path (path_for_change part 0) (part.encode (change_value first))
      ∷ []

  init_ops-eq : impl_init_ops part ≡ ok init_ops
  unfolding impl_init_ops op_write_path op_delete_path_prefix StoragePath.check
  init_ops-eq =
      rw
        (
          p.is_path,
          revision_number_path-is_instance part p.is_path,
          path_for_change-is_instance part 0 p.is_path,
        )
        refl

  init_change :
      (i : ℕ) (f : String → Option B)
      → apply part.hash init_ops f (path_for_change part i) ≡ stored part (first ∷ []) 0 i
  unfolding apply
  init_change zero f = rw (path_for_change-eq_iff part 0 0) refl
  init_change (suc i) f =
      let z : (0 == suc i) ≡ false = ground arith in
      let y : leb 0 (suc i) ≡ true = ground arith in
      rw
        (
          path_for_change-eq_iff part 0 (suc i),
          z,
          beq_ne (revision_number_path part) (path_for_change part (suc i))
              (revision≢change part (suc i)),
          below-change part (suc i) p.is_path,
          y,
        )
        refl

  init_snapshot :
      (f : String → Option B) → apply part.hash init_ops f (stored_snapshot_path part) ≡ none
  unfolding apply
  init_snapshot f =
      rw
        (
          beq_ne (path_for_change part 0) (stored_snapshot_path part)
              (λ q. snapshot≢change part 0 (sym q)),
          beq_ne (revision_number_path part) (stored_snapshot_path part)
              (λ q. snapshot≢revision part (sym q)),
          below-snapshot part p.is_path,
        )
        refl

  -- For a part whose prefix is a path, with a codec that decodes what it encodes and hashes that
  -- tell numbers apart, the operations that set a part up do not throw, and on any document
  -- snapshot of the file they leave the part with the empty first change alone, at revision 0 and
  -- without a stored snapshot.
  pub init_ops-IsLog :
      ⦃e : Eq B⦄ (size : B → ℕ) (v : Snapshot (FileOp B)) (r : ℕ)
      → IsDocument part.hash v
      → (w : Snapshot (FileOp B)) × (impl_init_ops part ≡ ok init_ops)
        × (Snapshot.compose (file_class part.hash size) v (change r init_ops) ≡ ok w)
        × IsLog part w (first ∷ []) 0 0
        × (stored_snapshot_in part w ≡ ok none)
  unfolding apply stored_snapshot_in
  init_ops-IsLog size v r h =
      let (w, c, d, _, m) =
        blob_at-compose part.hash size v (change r init_ops) h (p.is_path, (tt, (tt, tt))) in
      (
        w,
        init_ops-eq,
        c,
        record {
          document = d;
          count = refl;
          numbered = (refl, tt);
          kept = omega arith;
          revision =
              m (revision_number_path part)
              ∙ rw
                  (
                    beq_ne (path_for_change part 0) (revision_number_path part)
                        (λ q. revision≢change part 0 (sym q)),
                    beq_self (revision_number_path part),
                  )
                  refl;
          changes = λ i. m (path_for_change part i) ∙ init_change i (blob_at part.hash v);
        },
        let i = stored_snapshot_path-is_instance part p.is_path in
            rw
              (
                read_path part.hash part.is_hash w (stored_snapshot_path part) d i,
                m (stored_snapshot_path part) ∙ init_snapshot (blob_at part.hash v),
              )
              refl,
      )
