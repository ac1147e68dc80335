-- ===== src/JsMap/Distinct.antt =====
-- Lists of operations that write distinct keys: the shape of a document, for each delta class.
use bayou.Prelude.{
  ◌≡◌, refl, sym, ◌∙◌, Bool, true, false, none, some, List, [], ◌∷◌, ◌++◌, append_assoc, append-nil,
  arith, Eq, ◌==◌, if◌then◌else◌, Bool-cases, inl, inr,
}
use bayou.JsMap.{JsMap, values, get, has, set, delete, get-set, Unique, set-Unique, delete-Unique}
use bayou.JsMap.Keyed.{Keyed, set-Keyed, delete-Keyed, key-get}
use bayou.JsMap.Rewrite.{write_all, write_all-values}

module _ {ℓ κ} {K : Type ℓ} {V : Type κ} ⦃e : Eq K⦄ where
  pub has-get :
      (k : K) (m : JsMap K V) → has k m ≡ (elim (get k m) [ none ↦ false | some _ ↦ true ])
  unfolding has get
  has-get k [] = refl
  has-get k ((j, v) ∷ m) = elim (Bool-cases (j == k)) [ inl q ↦ rw q | inr q ↦ rw q (has-get k m) ]

  pub has-set :
      (k j : K) (v : V) (m : JsMap K V) → has j (set k v m) ≡ (if k == j then true else has j m)
  has-set k j v m = ground (arith, has-get j m, has-get j (set k v m), get-set k j v m)

  pub get-of-has : (k : K) (m : JsMap K V) → has k m ≡ false → get k m ≡ none
  get-of-has k m h = ground (arith, has-get k m)

  values-set_fresh :
      (k : K) (v : V) (m : JsMap K V) → get k m ≡ none → values (set k v m) ≡ values m ++ (v ∷ [])
  unfolding get set
  values-set_fresh k v [] h = refl
  values-set_fresh k v ((j, w) ∷ m) h = elim (Bool-cases (j == k)) [
    | inl q ↦ absurd (ground arith)
    | inr q ↦ rw q (rw (values-set_fresh k v m (rw q at h)))
  ]

module _ {ℓ κ} {K : Type ℓ} {Op : Type κ} (is_write : Op → Bool) where
  abbrev pub AllWrites : JsMap K Op → Type 0
  AllWrites [] = Unit
  AllWrites ((_, o) ∷ m) = (is_write o ≡ true) × AllWrites m

module _ {ℓ κ} {K : Type ℓ} {Op : Type κ} ⦃e : Eq K⦄ (key : Op → K) (is_write : Op → Bool) where
  -- The map of a document: each entry writes its own key, once.
  pub record IsDocumentMap (m : JsMap K Op) : Type (ℓ ⊔ κ) where
    pub unique : Unique m
    pub keyed : Keyed key m
    pub writes : AllWrites is_write m

  set-AllWrites :
      (k : K) (o : Op) (m : JsMap K Op)
      → is_write o ≡ true
      → AllWrites is_write m
      → AllWrites is_write (set k o m)
  unfolding set
  set-AllWrites k o [] h w = (h, tt)
  set-AllWrites k o ((j, v) ∷ m) h (p, w) = elim (Bool-cases (j == k)) [
    | inl q ↦ rw q (h, w)
    | inr q ↦ rw q (p, set-AllWrites k o m h w)
  ]

  delete-AllWrites :
      (k : K) (m : JsMap K Op) → AllWrites is_write m → AllWrites is_write (delete k m)
  unfolding delete
  delete-AllWrites k [] w = tt
  delete-AllWrites k ((j, v) ∷ m) (p, w) = elim (Bool-cases (j == k)) [
    | inl q ↦ rw q (delete-AllWrites k m w)
    | inr q ↦ rw q (p, delete-AllWrites k m w)
  ]

  pub set-IsDocumentMap :
      (o : Op) (m : JsMap K Op)
      → is_write o ≡ true
      → IsDocumentMap m
      → IsDocumentMap (set (key o) o m)
  set-IsDocumentMap o m h d = record {
    unique = set-Unique (key o) o m d.unique;
    keyed = set-Keyed key (key o) o m refl d.keyed;
    writes = set-AllWrites (key o) o m h d.writes;
  }

  pub delete-IsDocumentMap : (k : K) (m : JsMap K Op) → IsDocumentMap m → IsDocumentMap (delete k m)
  delete-IsDocumentMap k m d = record {
    unique = delete-Unique k m d.unique;
    keyed = delete-Keyed key k m d.keyed;
    writes = delete-AllWrites k m d.writes;
  }

  pub empty-IsDocumentMap : IsDocumentMap []
  empty-IsDocumentMap = record { unique = tt; keyed = tt; writes = tt }

  -- The test of `isDocument()`, over the set of the keys that were met.
  unfoldable pub distinct : JsMap K (Unit {0}) → List Op → Bool
  distinct seen [] = true
  distinct seen (o ∷ os) =
      if is_write o
      then (if has (key o) seen then false else distinct (set (key o) tt seen) os)
      else false

  -- The keys of the map are not among those that were met.
  record IsUnseen (seen : JsMap K (Unit {0})) (m : JsMap K Op) : Type (ℓ ⊔ κ) where
    unseen : (k : K) (o : Op) → get k m ≡ some o → has k seen ≡ false

  tail-IsUnseen :
      (seen : JsMap K (Unit {0})) (k : K) (o : Op) (m : JsMap K Op)
      → get k m ≡ none
      → IsUnseen seen ((k, o) ∷ m)
      → IsUnseen (set k tt seen) m
  unfolding get
  tail-IsUnseen seen k o m f u = record {
    unseen = λ j w p. rw (has-set k j tt seen) (ground (arith, u.unseen j w, e.beq_iff k j));
  }

  distinct_unseen :
      (seen : JsMap K (Unit {0})) (m : JsMap K Op)
      → IsDocumentMap m
      → IsUnseen seen m
      → distinct seen (values m) ≡ true
  unfolding distinct get
  distinct_unseen seen [] d u = refl
  distinct_unseen seen ((k, o) ∷ m) d u =
      let (f, fs) = d.unique in
      let (p, ps) = d.keyed in
      let (q, qs) = d.writes in
      let s : has k seen ≡ false = u.unseen k o (ground (arith, e.beq_iff k k)) in
      let rest : IsDocumentMap m = record { unique = fs; keyed = ps; writes = qs } in
      rw (q, p, s) (distinct_unseen (set k tt seen) m rest (tail-IsUnseen seen k o m f u))

  pub distinct-values : (m : JsMap K Op) → IsDocumentMap m → distinct [] (values m) ≡ true
  distinct-values m d = distinct_unseen [] m d (record { unseen = λ k o p. unfold has in refl })

  -- The set of keys met holds the keys of the map.
  record IsSeen (seen : JsMap K (Unit {0})) (m : JsMap K Op) : Type (ℓ ⊔ κ) where
    seen_iff : (k : K) → has k seen ≡ has k m

  set-IsSeen :
      (seen : JsMap K (Unit {0})) (k : K) (o : Op) (m : JsMap K Op)
      → IsSeen seen m
      → IsSeen (set k tt seen) (set k o m)
  set-IsSeen seen k o m s = record {
    seen_iff = λ j. rw (has-set k j tt seen, has-set k j o m, s.seen_iff j);
  }

  pub record IsMapOf (os : List Op) (m : JsMap K Op) : Type (ℓ ⊔ κ) where
    pub document : IsDocumentMap m
    pub same : values m ≡ os

  distinct_map :
      (seen : JsMap K (Unit {0})) (m : JsMap K Op) (os : List Op)
      → distinct seen os ≡ true
      → IsSeen seen m
      → IsDocumentMap m
      → IsMapOf (values m ++ os) (write_all key os m)
  unfolding distinct write_all
  distinct_map seen m [] h s d = record { document = d; same = sym (append-nil (values m)) }
  distinct_map seen m (o ∷ os) h s d = elim (Bool-cases (is_write o)) [
    | inl p ↦ elim (Bool-cases (has (key o) seen)) [
      | inl q ↦ absurd (ground arith)
      | inr q ↦
          let g : get (key o) m ≡ none = get-of-has (key o) m (sym (s.seen_iff (key o)) ∙ q) in
          let r : IsMapOf (values (set (key o) o m) ++ os) (write_all key os (set (key o) o m)) =
            distinct_map (set (key o) tt seen) (set (key o) o m) os (rw (p, q) at h)
              (set-IsSeen seen (key o) o m s) (set-IsDocumentMap o m p d) in
          rw (values-set_fresh (key o) o m g, append_assoc) at r
    ]
    | inr p ↦ absurd (ground arith)
  ]

  -- A list of writes to distinct keys is the values of its map.
  pub distinct-IsMapOf : (os : List Op) → distinct [] os ≡ true → IsMapOf os (write_all key os [])
  distinct-IsMapOf os h =
      distinct_map [] [] os h (record { seen_iff = λ k. unfold has in refl }) empty-IsDocumentMap

  pub values-write_all : (m : JsMap K Op) → IsDocumentMap m → write_all key (values m) [] ≡ m
  values-write_all m d = write_all-values key m d.keyed d.unique

  writes_get :
      (k : K) (m : JsMap K Op) {o : Op}
      → AllWrites is_write m
      → get k m ≡ some o
      → is_write o ≡ true
  unfolding get
  writes_get k [] w h = absurd (ground arith)
  writes_get k ((j, v) ∷ m) {o} (p, w) h = elim (Bool-cases (j == k)) [
    | inl q ↦ ground arith
    | inr q ↦ writes_get k m w (rw q at h)
  ]

  -- An entry of a document's map writes the key that it stands under.
  pub entry_of :
      (k : K) (m : JsMap K Op) {o : Op}
      → IsDocumentMap m
      → get k m ≡ some o
      → (key o ≡ k) × (is_write o ≡ true)
  entry_of k m d h = (key-get key k m d.keyed h, writes_get k m d.writes h)
