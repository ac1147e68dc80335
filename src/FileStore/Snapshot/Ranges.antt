-- ===== src/FileStore/Snapshot/Ranges.antt =====
-- About reading a range of paths in local-modules/@bayou/file-store-ot/FileSnapshot.js.
use bayou.Prelude.{
  ℕ, zero, suc, ◌+◌, ◌-◌, ◌≡◌, refl, sym, ◌∙◌, subst, Bool, true, ◌&&◌, Bool-cases, inl, inr,
  Option, none, some, Option-cases, [], String, string_eq, ok, ◌==◌, nat_eq, leb, ltb, beq_self,
  beq_ne, if◌then◌else◌, arith, ◌<◌,
}
use bayou.JsMap
use bayou.JsMap.{JsMap, get-set}
use bayou.Ot.Snapshot.{Snapshot}
use bayou.FileStore.StoragePath
use bayou.FileStore.StoragePath.Decimals.{indexed-inj, indexed-is_instance}
use bayou.FileStore.Op.{FileOp}
use bayou.FileStore.Snapshot.{select_range, get_path_range}
use bayou.FileStore.Snapshot.Laws.{IsDocument, blob_at, read_path}

pub beq-indexed :
    (prefix : String) (m n : ℕ)
    → (StoragePath.indexed prefix m == StoragePath.indexed prefix n) ≡ (m == n)
beq-indexed prefix m n = elim (Bool-cases (m == n)) [
  | inl e ↦
      let q : m ≡ n = ground (arith, e) in
      rw (q, beq_self (StoragePath.indexed prefix n)) (sym (beq_self n))
  | inr e ↦ rw e (
      beq_ne (StoragePath.indexed prefix m) (StoragePath.indexed prefix n)
        λ d. absurd (ground (arith, e, indexed-inj prefix m n d)))
]

-- The first that is there.
abbrev pub or_other : {B : Type 0} → Option B → Option B → Option B
or_other none y = y
or_other (some x) y = some x

or_other-none : {B : Type 0} (x : Option B) → or_other x none ≡ x
or_other-none none = refl
or_other-none (some x) = refl

module _ {B : Type 0} (hash : B → String) (is_hash : String → Bool) (s : Snapshot (FileOp B))
    (prefix : String) (d : IsDocument hash s) (h : StoragePath.is_instance prefix ≡ true) where
  add : ℕ → JsMap String B → JsMap String B
  add n result = elim (blob_at hash s (StoragePath.indexed prefix n)) [
    | some b ↦ JsMap.set (StoragePath.indexed prefix n) b result
    | none ↦ result
  ]

  get-add :
      (n i : ℕ) (result : JsMap String B)
      → JsMap.get (StoragePath.indexed prefix i) (add n result) ≡ (
          if n == i
          then or_other
              (blob_at hash s (StoragePath.indexed prefix i))
              (JsMap.get (StoragePath.indexed prefix i) result)
          else JsMap.get (StoragePath.indexed prefix i) result)
  unfolding add
  get-add n i result = elim (Option-cases (blob_at hash s (StoragePath.indexed prefix n))) [
    | inl q ↦ elim (Bool-cases (n == i)) [
      | inl e ↦
          let p : n ≡ i = ground (arith, e) in
          rw (add, q, e, subst (λ j. blob_at hash s (StoragePath.indexed prefix j) ≡ none) p q) refl
      | inr e ↦ rw (add, q, e) refl
    ]
    | inr (b, q) ↦
        rw
          (
            add,
            q,
            get-set (StoragePath.indexed prefix n) (StoragePath.indexed prefix i) b result,
            beq-indexed prefix n i,
          )
          (elim (Bool-cases (n == i)) [
            | inl e ↦
                let p : n ≡ i = ground (arith, e) in
                rw (e, subst (λ j. blob_at hash s (StoragePath.indexed prefix j) ≡ some b) p q) refl
            | inr e ↦ rw e refl
          ])
  ]

  select_range-eq :
      (left n : ℕ) (result : JsMap String B)
      → (m : JsMap String B) × (select_range hash is_hash s prefix n left result ≡ ok m)
        × ((i : ℕ)
            → JsMap.get (StoragePath.indexed prefix i) m ≡ (
                if leb n i && ltb i (n + left)
                then or_other
                    (blob_at hash s (StoragePath.indexed prefix i))
                    (JsMap.get (StoragePath.indexed prefix i) result)
                else JsMap.get (StoragePath.indexed prefix i) result))
  unfolding select_range add
  select_range-eq zero n result = (result, refl, λ i. ground arith)
  select_range-eq (suc left) n result =
      let (m, e, f) = select_range-eq left (n + 1) (add n result) in
      (
        m,
        rw
            (read_path hash is_hash s (StoragePath.indexed prefix n) d
              (indexed-is_instance prefix n h))
            e,
        λ i. f i ∙ rw (get-add n i result) (ground arith),
      )

  -- Reading the paths of a range gives what is stored there.
  pub get_path_range-eq :
      (start end : ℕ)
      → start < end
      → (m : JsMap String B) × (get_path_range hash is_hash s prefix start end ≡ ok m)
        × ((i : ℕ)
            → JsMap.get (StoragePath.indexed prefix i) m ≡ (
                if leb start i && ltb i end
                then blob_at hash s (StoragePath.indexed prefix i)
                else none))
  unfolding get_path_range StoragePath.check JsMap.get
  get_path_range-eq start end b =
      let (m, e, f) = select_range-eq (end - start) start [] in
      let z : leb (start + 1) end ≡ true = ground (arith, b) in
      (
        m,
        rw (h, z) e,
        λ i.
            f i
            ∙ rw (or_other-none (blob_at hash s (StoragePath.indexed prefix i)))
                (ground (arith, b)),
      )
