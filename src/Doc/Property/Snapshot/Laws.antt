-- ===== src/Doc/Property/Snapshot/Laws.antt =====
-- About local-modules/@bayou/doc-common/PropertySnapshot.js.
use bayou.Prelude.{
  ◌≡◌, refl, sym, ◌∙◌, ◌↔◌, true, false, Option, none, some, [], ◌∷◌, String, string_eq, ok, ◌>>=◌,
  Eq, ◌==◌, nat_eq, if◌then◌else◌, arith, inl, inr, Bool-cases, Option-cases,
}
use bayou.JsMap
use bayou.JsMap.{JsMap, Unique}
use bayou.JsMap.Keyed.{eval, act_option, eval-values}
use bayou.JsMap.Rewrite.{write_all}
use bayou.JsMap.Distinct.{IsDocumentMap, distinct, distinct-IsMapOf, entry_of, has-get}
use bayou.Ot.Delta.{Delta}
use bayou.Ot.Change.{Change, change}
use bayou.Ot.Snapshot.{Snapshot, compose}
use bayou.Ot.Snapshot.Chunks.{snapshot-compose}
use bayou.Syntax.{check_identifier, is_identifier}
use bayou.Doc.Property.Op.{PropertyOp, delete, set, op_equals_iff, key, is_set, op_set, op_delete}
use bayou.Doc.Property.Delta.{property_class, impl_is_document}
use bayou.Doc.Property.Delta.Laws.{
  act, apply, meaning, property_laws, meaning-compose, is_document-eq,
}
use bayou.Doc.Property.Snapshot.{
  build, properties, property_of, get_or_null, has, with_property, without_property, same_op,
}

abbrev pub IsDocument : {V : Type 0} → Snapshot (PropertyOp V) → Type 0
IsDocument s = impl_is_document s.contents ≡ true

-- The map of a snapshot.
abbrev pub map_of : {V : Type 0} → Snapshot (PropertyOp V) → JsMap String (PropertyOp V)
map_of s = write_all key s.contents []

-- The operation that a document has for a name with the given value.
abbrev pub as_op : {V : Type 0} → String → Option V → Option (PropertyOp V)
as_op k none = none
as_op k (some x) = some (set (record { name = k; value = x }))

module _ {V : Type 0} where
  build-write_all :
      (m : JsMap String (PropertyOp V)) (d : Delta (PropertyOp V)) (names : JsMap String (Unit {0}))
      → distinct key is_set names d ≡ true
      → build m d ≡ ok (write_all key d m)
  unfolding build write_all distinct
  build-write_all m [] names h = refl
  build-write_all m (delete n ∷ ops) names h = absurd (ground arith)
  build-write_all m (set p ∷ ops) names h =
      ground (arith, build-write_all (JsMap.set p.name (set p) m) ops (JsMap.set p.name tt names))

  -- The constructor does not meet a weird operation.
  pub properties-eq : (s : Snapshot (PropertyOp V)) → IsDocument s → properties s ≡ ok (map_of s)
  unfolding properties
  properties-eq s h = build-write_all [] s.contents [] (sym (is_document-eq s.contents) ∙ h)

  pub map_of-IsDocumentMap :
      (s : Snapshot (PropertyOp V)) → IsDocument s → IsDocumentMap key is_set (map_of s)
  map_of-IsDocumentMap s h =
      (distinct-IsMapOf key is_set s.contents (sym (is_document-eq s.contents) ∙ h)).document

  -- What the map holds at a name is the property with that name.
  pub meaning-get :
      (s : Snapshot (PropertyOp V)) (k : String)
      → IsDocument s
      → meaning s.contents k ≡ act_option key act (JsMap.get k (map_of s)) none
  meaning-get s k h =
      let w = distinct-IsMapOf key is_set s.contents (sym (is_document-eq s.contents) ∙ h) in
      rw (w.same) at
        (eval-values key act (map_of s) (λ _. none) k w.document.keyed w.document.unique)

  entry_as_op :
      (s : Snapshot (PropertyOp V)) (k : String) (o : PropertyOp V)
      → IsDocument s
      → JsMap.get k (map_of s) ≡ some o
      → (key o ≡ k) × (is_set o ≡ true)
      → JsMap.get k (map_of s) ≡ as_op k (meaning s.contents k)
  entry_as_op s k (delete n) h q (a, b) = absurd (ground arith)
  entry_as_op s k (set p) h q (a, b) = ground (arith, meaning-get s k h, q, a)

  pub map_get :
      (s : Snapshot (PropertyOp V)) (k : String)
      → IsDocument s
      → JsMap.get k (map_of s) ≡ as_op k (meaning s.contents k)
  map_get s k h = elim (Option-cases (JsMap.get k (map_of s))) [
    | inl q ↦ rw (meaning-get s k h, q)
    | inr (o, q) ↦
        entry_as_op s k o h q (entry_of key is_set k (map_of s) (map_of-IsDocumentMap s h) q)
  ]

  -- Reading a name of a document snapshot gives the property that it has with that name, or `null`,
  -- and a name that is no identifier throws.
  pub get_or_null-eq :
      (s : Snapshot (PropertyOp V)) (name : String)
      → IsDocument s
      → get_or_null s name
        ≡ (check_identifier name >>= λ n. ok (property_of (as_op n (meaning s.contents n))))
  unfolding get_or_null check_identifier
  get_or_null-eq s name h = ground (arith, properties-eq s h, map_get s name h)

  -- Asking a document snapshot for a name tells whether it has a property with that name, and a
  -- name that is no identifier throws.
  pub has-eq :
      (s : Snapshot (PropertyOp V)) (name : String)
      → IsDocument s
      → has s name ≡ (
          check_identifier name >>= λ n.
          ok (elim (meaning s.contents n) [ none ↦ false | some _ ↦ true ]))
  unfolding has check_identifier
  has-eq s name h = ground (arith, properties-eq s h, map_get s name h, has-get name (map_of s))

module _ {V : Type 0} ⦃v : Eq V⦄ where
  pub compose-meaning :
      (s : Snapshot (PropertyOp V)) (ch : Change (PropertyOp V))
      → IsDocument s
      → (t : Snapshot (PropertyOp V)) × (compose property_class s ch ≡ ok t)
        × IsDocument t
        × (t.rev_num ≡ ch.rev_num)
        × ((k : String) → meaning t.contents k ≡ apply ch.delta (meaning s.contents) k)
  compose-meaning s ch h =
      let (r, _, p, q, e, _) = snapshot-compose property_laws s ch tt tt h in
      let (r', p', _, m) = meaning-compose s.contents ch.delta h in
      let same : r' ≡ r = cc in
      (record { rev_num = ch.rev_num; contents = r }, e, q, refl, λ k. rw same at (m k))

  pub same_op_iff :
      (o : PropertyOp V) (x : Option (PropertyOp V)) → (same_op o x ≡ true) ↔ (x ≡ some o)
  same_op_iff o none = ground arith
  same_op_iff o (some p) = ground (arith, op_equals_iff o p)

  value_of_as_op :
      (k : String) (value : V) (o : Option V)
      → as_op k o ≡ some (set (record { name = k; value = value }))
      → o ≡ some value
  value_of_as_op k value none e = absurd (ground arith)
  value_of_as_op k value (some x) e = ground arith

  apply_one :
      (op : PropertyOp V) (s : String → Option V) (k : String)
      → apply (op ∷ []) s k ≡ (if key op == k then act op (s k) else s k)
  unfolding eval
  apply_one op s k = refl

  -- Setting a property of a document snapshot, with an identifier for a name, does not throw, and
  -- gives a document snapshot of the same revision that differs at that name alone.
  pub with_property-meaning :
      (s : Snapshot (PropertyOp V)) (name : String) (value : V)
      → IsDocument s
      → is_identifier name ≡ true
      → (t : Snapshot (PropertyOp V)) × (with_property s name value ≡ ok t)
        × IsDocument t
        × (t.rev_num ≡ s.rev_num)
        × ((k : String)
            → meaning t.contents k ≡ (if name == k then some value else meaning s.contents k))
  unfolding with_property op_set check_identifier
  with_property-meaning s name value h i =
      let op : PropertyOp V = set (record { name = name; value = value }) in
      let (t, e, d, n, m) = compose-meaning s (change s.rev_num (op ∷ [])) h in
      elim (Bool-cases (same_op op (JsMap.get name (map_of s)))) [
        | inl q ↦ (
          s,
          rw (i, properties-eq s h) (rw q),
          h,
          refl,
          λ k. ground (
            arith,
            value_of_as_op name value (meaning s.contents name)
                (sym (map_get s name h) ∙ (same_op_iff op _).0 q),
            string_eq.beq_iff name k,
          ),
        )
        | inr q ↦ (
          t,
          rw (i, properties-eq s h) (rw q e),
          d,
          n,
          λ k. m k ∙ apply_one op (meaning s.contents) k,
        )
      ]

  -- Removing a property from a document snapshot, with an identifier for a name, does not throw,
  -- and gives a document snapshot of the same revision that lacks that name and else has what it
  -- had.
  pub without_property-meaning :
      (s : Snapshot (PropertyOp V)) (name : String)
      → IsDocument s
      → is_identifier name ≡ true
      → (t : Snapshot (PropertyOp V)) × (without_property s name ≡ ok t)
        × IsDocument t
        × (t.rev_num ≡ s.rev_num)
        × ((k : String) → meaning t.contents k ≡ (if name == k then none else meaning s.contents k))
  unfolding without_property op_delete check_identifier
  without_property-meaning s name h i =
      let op : PropertyOp V = delete name in
      let (t, e, d, n, m) = compose-meaning s (change s.rev_num (op ∷ [])) h in
      elim (Bool-cases (JsMap.has name (map_of s))) [
        | inl q ↦ (
          t,
          rw (i, properties-eq s h) (rw q e),
          d,
          n,
          λ k. m k ∙ apply_one op (meaning s.contents) k,
        )
        | inr q ↦ (
          s,
          rw (i, properties-eq s h) (rw q),
          h,
          refl,
          λ k.
              ground
                (arith, map_get s name h, has-get name (map_of s), string_eq.beq_iff name k, q),
        )
      ]
