-- ===== src/FileStore/Snapshot/Diff.antt =====
-- About `diff()` of local-modules/@bayou/file-store-ot/FileSnapshot.js.
use bayou.Prelude.{
  ℕ, ◌≡◌, refl, ◌∙◌, ap, Bool, true, false, not, ◌&&◌, ◌||◌, Option, none, some, [], ◌∷◌, ◌++◌,
  String, string_eq, ok, Eq, ◌==◌, ◌↔◌, if◌then◌else◌, arith, inl, inr, Bool-cases, Option-cases,
  append-All,
}
use bayou.JsMap
use bayou.JsMap.{JsMap, Unique}
use bayou.JsMap.Keyed.{Keyed}
use bayou.JsMap.Distinct.{AllWrites, has-get}
use bayou.Ot.Delta
use bayou.Ot.Delta.{Delta}
use bayou.Ot.Delta.Laws.{eq_of_equals}
use bayou.Ot.Change.{Change, change}
use bayou.Ot.Snapshot.{Snapshot, compose}
use bayou.Ot.Snapshot.Diff.{diff_equal, diff_unequal}
use bayou.FileStore.StoragePath
use bayou.FileStore.Op.{
  FileOp, delete_all, delete_blob, delete_path, delete_path_prefix, write_blob, write_path,
  op_equals_iff, op_delete_path,
}
use bayou.FileStore.Delta.{file_class}
use bayou.FileStore.Delta.Meaning.{
  apply, apply_op, key, act, is_write, HasPath, Valid, apply-append,
}
use bayou.FileStore.Delta.Laws.{document-stored}
use bayou.FileStore.Snapshot.{same_op, changed_ops, removed_ops, impl_diff_as_delta, diff}
use bayou.FileStore.Snapshot.Laws.{
  IsDocument, map_of, blob_at, values_of-eq, map_of-IsDocumentMap, blob_at-compose,
}

-- The keys are IDs, as the constructors of the operations check.
abbrev pub HasIds : {B : Type 0} → (String → Bool) → JsMap String (FileOp B) → Type 0
HasIds is_hash [] = Unit
HasIds is_hash ((id, _) ∷ m) =
    ((StoragePath.is_instance id || is_hash id) ≡ true) × HasIds is_hash m

module _ {B : Type 0} (hash : B → String) ⦃e : Eq B⦄ where
  apply_write :
      (op : FileOp B) (s : String → Option B) (k : String)
      → is_write op ≡ true
      → apply_op hash op s k ≡ (if key hash op == k then act op (s k) else s k)
  apply_write (write_blob b) s k h = refl
  apply_write (write_path p b) s k h = refl
  apply_write op s k h = absurd (ground arith)

  same_op_iff : (o : FileOp B) (x : Option (FileOp B)) → (same_op hash o x ≡ true) ↔ (x ≡ some o)
  same_op_iff o none = ground arith
  same_op_iff o (some p) = ground (arith, op_equals_iff o p)

  changed_none :
      (a b : JsMap String (FileOp B)) (s : String → Option B) (k : String)
      → Keyed (key hash) b
      → AllWrites is_write b
      → JsMap.get k b ≡ none
      → apply hash (changed_ops hash a b) s k ≡ s k
  unfolding changed_ops apply JsMap.get
  changed_none a [] s k w x h = refl
  changed_none a ((j, o) ∷ b) s k (p, w) (y, x) h =
      elim (Bool-cases (same_op hash o (JsMap.get j a))) [
        | inl q ↦ rw q (changed_none a b s k w x (ground arith))
        | inr q ↦ rw q (
            changed_none a b (apply_op hash o s) k w x (ground arith)
            ∙ apply_write o s k y
            ∙ ground (arith, string_eq.beq_iff (key hash o) k, string_eq.beq_iff j k))
      ]

  abbrev changed_at : JsMap String (FileOp B) → Option (FileOp B) → String → Option B → Option B
  changed_at a none k x = x
  changed_at a (some o) k x = if same_op hash o (JsMap.get k a) then x else act o x

  -- What the first loop makes of each ID.
  apply-changed :
      (a b : JsMap String (FileOp B)) (s : String → Option B) (k : String)
      → Keyed (key hash) b
      → AllWrites is_write b
      → Unique b
      → apply hash (changed_ops hash a b) s k ≡ changed_at a (JsMap.get k b) k (s k)
  unfolding changed_ops apply JsMap.get
  apply-changed a [] s k w x u = refl
  apply-changed a ((j, o) ∷ b) s k (p, w) (y, x) (f, u) = elim (Bool-cases (j == k)) [
    | inl e ↦
        let e' : j ≡ k = (string_eq.beq_iff j k).0 e in
        let f' : JsMap.get k b ≡ none = rw e' at f in
        elim (Bool-cases (same_op hash o (JsMap.get j a))) [
          | inl q ↦
              rw (q, e)
                (changed_none a b s k w x f'
                  ∙ (let q' : same_op hash o (JsMap.get k a) ≡ true = rw e' at q in rw q'))
          | inr q ↦
              rw (q, e)
                (changed_none a b (apply_op hash o s) k w x f'
                  ∙ apply_write o s k y
                  ∙ (let q' : same_op hash o (JsMap.get k a) ≡ false = rw e' at q in
                      rw q' (ground (arith, string_eq.beq_iff (key hash o) k))))
        ]
    | inr e ↦ elim (Bool-cases (same_op hash o (JsMap.get j a))) [
      | inl q ↦ rw (q, e) (apply-changed a b s k w x u)
      | inr q ↦
          rw (q, e)
            (apply-changed a b (apply_op hash o s) k w x u
              ∙ ap (changed_at a (JsMap.get k b) k) (
                  apply_write o s k y
                  ∙ ground (arith, string_eq.beq_iff (key hash o) k, string_eq.beq_iff j k)))
    ]
  ]

  changed-Valid :
      (a b : JsMap String (FileOp B)) → AllWrites is_write b → Valid (changed_ops hash a b)
  unfolding changed_ops
  changed-Valid a [] w = tt
  changed-Valid a ((j, o) ∷ b) (p, w) = elim (Bool-cases (same_op hash o (JsMap.get j a))) [
    | inl q ↦ rw q (changed-Valid a b w)
    | inr q ↦ rw q (valid_write o p, changed-Valid a b w)
  ]
    where
      valid_write : (o : FileOp B) → is_write o ≡ true → HasPath o
      valid_write (delete_path_prefix _) h = absurd (ground arith)
      valid_write (write_blob _) h = tt
      valid_write _ h = tt

  -- The deletions of the second loop.
  record Removed (is_hash : String → Bool) (a b : JsMap String (FileOp B)) : Type 0 where
    ops : Delta (FileOp B)
    runs : removed_ops hash is_hash b a ≡ ok ops
    valid : Valid ops
    applied :
        (s : String → Option B) (k : String)
        → apply hash ops s k ≡ (if JsMap.has k a && not (JsMap.has k b) then none else s k)

  deletion : (String → Bool) → String → FileOp B
  deletion is_hash id = if StoragePath.is_instance id then delete_path id else delete_blob id

  removed :
      (is_hash : String → Bool) (a b : JsMap String (FileOp B))
      → HasIds is_hash a
      → Removed is_hash a b
  unfolding removed_ops apply JsMap.has op_delete_path StoragePath.check
  removed is_hash [] b n = record { ops = []; runs = refl; valid = tt; applied = λ s k. refl }
  removed is_hash ((j, o) ∷ a) b (i, n) =
      let r = removed is_hash a b n in
      elim (Option-cases (JsMap.get j b)) [
        | inl q ↦ elim (Bool-cases (StoragePath.is_instance j)) [
          | inl p ↦ record {
            ops = delete_path j ∷ r.ops;
            runs = ground (arith, r.runs);
            valid = (tt, r.valid);
            applied = λ s k.
                r.applied (apply_op hash (delete_path j) s) k
                ∙ ground (arith, has-get j b, string_eq.beq_iff j k);
          }
          | inr p ↦ record {
            ops = delete_blob j ∷ r.ops;
            runs = ground (arith, r.runs);
            valid = (tt, r.valid);
            applied = λ s k.
                r.applied (apply_op hash (delete_blob j) s) k
                ∙ ground (arith, has-get j b, string_eq.beq_iff j k);
          }
        ]
        | inr (x, q) ↦ record {
          ops = r.ops;
          runs = ground (arith, r.runs);
          valid = r.valid;
          applied = λ s k. r.applied s k ∙ ground (arith, has-get j b, string_eq.beq_iff j k);
        }
      ]

  act_const : (o : FileOp B) (x y : Option B) → act o x ≡ act o y
  act_const delete_all x y = refl
  act_const o x y = refl

  changed_or_removed :
      (s t : Snapshot (FileOp B)) (k : String)
      → IsDocument hash s
      → IsDocument hash t
      → (if JsMap.has k (map_of hash s) && not (JsMap.has k (map_of hash t))
          then none
          else changed_at (map_of hash s) (JsMap.get k (map_of hash t)) k (blob_at hash s k))
        ≡ blob_at hash t k
  changed_or_removed s t k h g = elim (Option-cases (JsMap.get k (map_of hash t))) [
    | inl q ↦ ground (
      arith,
      document-stored hash s.contents k h,
      document-stored hash t.contents k g,
      has-get k (map_of hash s),
      has-get k (map_of hash t),
    )
    | inr (o, q) ↦ ground (
      arith,
      document-stored hash s.contents k h,
      document-stored hash t.contents k g,
      has-get k (map_of hash t),
      same_op_iff o (JsMap.get k (map_of hash s)),
      act_const o (blob_at hash s k) none,
    )
  ]

  module _ (size : B → ℕ) (is_hash : String → Bool) where
    -- For two document snapshots, the older of which has only IDs for its keys, `diff()` does not
    -- throw, and its change composed onto the older gives a snapshot at the newer's revision that
    -- stores what the newer stores.
    pub compose-file_diff :
        (s t : Snapshot (FileOp B))
        → IsDocument hash s
        → IsDocument hash t
        → HasIds is_hash (map_of hash s)
        → (ch : Change (FileOp B)) × (r : Snapshot (FileOp B)) × (diff hash size is_hash s t
            ≡ ok ch)
          × (compose (file_class hash size) s ch ≡ ok r)
          × (r.rev_num ≡ t.rev_num)
          × ((k : String) → blob_at hash r k ≡ blob_at hash t k)
    unfolding diff apply impl_diff_as_delta
    compose-file_diff s t h g n =
        elim (Bool-cases (Delta.equals (file_class hash size) s.contents t.contents)) [
          | inl q ↦
              let ch : Change (FileOp B) = change t.rev_num [] in
              let (r, e, d, n, m) = blob_at-compose hash size s ch h tt in
              (
                ch,
                r,
                diff_equal (file_class hash size) (impl_diff_as_delta hash is_hash) s t q,
                e,
                n,
                λ k.
                    m k
                    ∙ ap
                        (λ (c : Delta (FileOp B)).
                          blob_at hash (record { rev_num = 0; contents = c }) k)
                        (eq_of_equals (file_class hash size) op_equals_iff s.contents t.contents q),
              )
          | inr q ↦
              let r = removed is_hash (map_of hash s) (map_of hash t) n in
              let c = changed_ops hash (map_of hash s) (map_of hash t) in
              let w = map_of-IsDocumentMap hash t g in
              let ch : Change (FileOp B) = change t.rev_num (c ++ r.ops) in
              let (z, e, d, n', m) = blob_at-compose hash size s ch h (
                append-All HasPath c r.ops (changed-Valid (map_of hash s) (map_of hash t) w.writes)
                  r.valid) in
              (
                ch,
                z,
                diff_unequal (file_class hash size) (impl_diff_as_delta hash is_hash) s t q
                    (rw (values_of-eq hash s h, values_of-eq hash t g, r.runs)),
                e,
                n',
                λ k.
                    m k
                    ∙ apply-append hash c r.ops (blob_at hash s) k
                    ∙ r.applied (apply hash c (blob_at hash s)) k
                    ∙ rw
                        (apply-changed (map_of hash s) (map_of hash t) (blob_at hash s) k w.keyed
                          w.writes w.unique)
                        (changed_or_removed s t k h g),
              )
        ]
