-- ===== src/Doc/Property/Snapshot/Diff.antt =====
-- About `equals()` and `diff()` of local-modules/@bayou/doc-common/PropertySnapshot.js.
use bayou.Prelude.{
  ◌≡◌, refl, sym, ◌∙◌, ap, ◌↔◌, true, false, not, ◌&&◌, Option, none, some, [], ◌∷◌, ◌++◌, String,
  string_eq, ok, Eq, ◌==◌, nat_eq, if◌then◌else◌, arith, inl, inr, Bool-cases, Option-cases,
}
use bayou.Syntax.{check_identifier, is_identifier}
use bayou.JsMap
use bayou.JsMap.{JsMap, Unique}
use bayou.JsMap.Keyed.{Keyed, eval, act_option, eval-append}
use bayou.JsMap.Same.{IsWithin, IsWithin-symm, get-IsWithin, size_eq}
use bayou.JsMap.Distinct.{has-get}
use bayou.Ot.Delta.{Delta}
use bayou.Ot.Delta
use bayou.Ot.Delta.Laws.{eq_of_equals}
use bayou.Ot.Change.{Change, change}
use bayou.Ot.Snapshot.{Snapshot, compose}
use bayou.Ot.Snapshot.Diff.{diff_equal, diff_unequal}
use bayou.Doc.Property.Op.{PropertyOp, delete, set, op_equals_iff, key, op_delete}
use bayou.Doc.Property.Delta.{property_class}
use bayou.Doc.Property.Delta.Laws.{act, apply, meaning}
use bayou.Doc.Property.Snapshot.{
  same_op, all_same, equals, changed_ops, removed_ops, impl_diff_as_delta, diff,
}
use bayou.Doc.Property.Snapshot.Laws.{
  IsDocument, map_of, properties-eq, map_of-IsDocumentMap, meaning-get, map_get, as_op,
  compose-meaning, same_op_iff,
}

-- The names of the operations are identifiers, as the constructor of a property checks.
abbrev pub HasNames : {V : Type 0} → JsMap String (PropertyOp V) → Type 0
HasNames [] = Unit
HasNames ((name, _) ∷ m) = (is_identifier name ≡ true) × HasNames m

module _ {V : Type 0} ⦃v : Eq V⦄ where
  all_same-IsWithin : (a b : JsMap String (PropertyOp V)) → all_same a b ≡ true → IsWithin a b
  unfolding all_same JsMap.get
  all_same-IsWithin [] b h = record { apply = λ k o p. absurd (ground arith) }
  all_same-IsWithin ((j, o) ∷ a) b h = elim (Bool-cases (same_op o (JsMap.get j b))) [
    | inl q ↦ record {
      apply = λ k p g. ground (
        arith,
        (all_same-IsWithin a b (rw q at h)).apply k p,
        (same_op_iff o (JsMap.get j b)).0 q,
        string_eq.beq_iff j k,
      );
    }
    | inr q ↦ absurd (ground arith)
  ]

  IsWithin-all_same :
      (a b : JsMap String (PropertyOp V)) → Unique a → IsWithin a b → all_same a b ≡ true
  unfolding all_same JsMap.get
  IsWithin-all_same [] b u h = refl
  IsWithin-all_same ((j, o) ∷ a) b (f, u) h =
      let here : same_op o (JsMap.get j b) ≡ true =
        (same_op_iff o _).1 (h.apply j o (ground (arith, string_eq.beq_iff j j))) in
      rw here (
        IsWithin-all_same a b u
          (record { apply = λ k p g. h.apply k p (ground (arith, string_eq.beq_iff j k)) }))

  same-map :
      (s t : Snapshot (PropertyOp V))
      → IsDocument s
      → IsDocument t
      → ((k : String) → meaning s.contents k ≡ meaning t.contents k)
      → (k : String) → JsMap.get k (map_of s) ≡ JsMap.get k (map_of t)
  same-map s t h g m k = map_get s k h ∙ ap (as_op k) (m k) ∙ sym (map_get t k g)

  equals-eq :
      (s t : Snapshot (PropertyOp V))
      → IsDocument s
      → IsDocument t
      → equals s t
        ≡ ok (
            (s.rev_num == t.rev_num)
            && (JsMap.size (map_of s) == JsMap.size (map_of t))
            && all_same (map_of s) (map_of t))
  unfolding equals
  equals-eq s t h g = rw (properties-eq s h, properties-eq t g)

  same_of_all_same :
      (s t : Snapshot (PropertyOp V))
      → IsDocument s
      → IsDocument t
      → JsMap.size (map_of s) ≡ JsMap.size (map_of t)
      → all_same (map_of s) (map_of t) ≡ true
      → (k : String) → meaning s.contents k ≡ meaning t.contents k
  same_of_all_same s t h g n a k =
      let w = all_same-IsWithin (map_of s) (map_of t) a in
      let w' =
        IsWithin-symm (map_of s) (map_of t) (map_of-IsDocumentMap s h).unique (omega arith) w in
      meaning-get s k h
      ∙ ap (λ o. act_option key act o none) (get-IsWithin (map_of s) (map_of t) k w w')
      ∙ sym (meaning-get t k g)

  -- `equals()` of two document snapshots is true exactly when they have one revision and the same
  -- properties, in whatever order those stand.
  pub equals-meaning :
      (s t : Snapshot (PropertyOp V))
      → IsDocument s
      → IsDocument t
      → (equals s t ≡ ok true)
        ↔ ((s.rev_num ≡ t.rev_num) × ((k : String) → meaning s.contents k ≡ meaning t.contents k))
  equals-meaning s t h g = (
    λ q.
        let q' = sym (equals-eq s t h g) ∙ q in
        (ground (arith, q'), same_of_all_same s t h g (ground (arith, q')) (ground (arith, q'))),
    λ (r, m).
        let e = same-map s t h g m in
        let n =
          size_eq (map_of s) (map_of t) (map_of-IsDocumentMap s h).unique
            (map_of-IsDocumentMap t g).unique e in
        let w =
          IsWithin-all_same (map_of s) (map_of t) (map_of-IsDocumentMap s h).unique
            (record { apply = λ k o p. sym (e k) ∙ p }) in
        equals-eq s t h g ∙ ground (arith, r, n, w),
  )

  changed_none :
      (a b : JsMap String (PropertyOp V)) (s : String → Option V) (k : String)
      → Keyed key b
      → JsMap.get k b ≡ none
      → apply (changed_ops a b) s k ≡ s k
  unfolding changed_ops eval JsMap.get
  changed_none a [] s k w h = refl
  changed_none a ((j, o) ∷ b) s k (p, w) h = elim (Bool-cases (same_op o (JsMap.get j a))) [
    | inl q ↦ rw q (changed_none a b s k w (ground arith))
    | inr q ↦ rw q (
        changed_none a b _ k w (ground arith)
        ∙ ground (arith, string_eq.beq_iff (key o) k, string_eq.beq_iff j k))
  ]

  abbrev changed_at :
      JsMap String (PropertyOp V) → Option (PropertyOp V) → String → Option V → Option V
  changed_at a none k x = x
  changed_at a (some o) k x = if same_op o (JsMap.get k a) then x else act o x

  -- What the first loop makes of each name.
  apply-changed :
      (a b : JsMap String (PropertyOp V)) (s : String → Option V) (k : String)
      → Keyed key b
      → Unique b
      → apply (changed_ops a b) s k ≡ changed_at a (JsMap.get k b) k (s k)
  unfolding changed_ops eval JsMap.get
  apply-changed a [] s k w u = refl
  apply-changed a ((j, o) ∷ b) s k (p, w) (f, u) = elim (Bool-cases (j == k)) [
    | inl e ↦
        let e' : j ≡ k = (string_eq.beq_iff j k).0 e in
        let f' : JsMap.get k b ≡ none = rw e' at f in
        elim (Bool-cases (same_op o (JsMap.get j a))) [
          | inl q ↦
              rw (q, e)
                (changed_none a b s k w f'
                  ∙ (let q' : same_op o (JsMap.get k a) ≡ true = rw e' at q in rw q'))
          | inr q ↦
              rw (q, e)
                (changed_none a b _ k w f'
                  ∙ (let q' : same_op o (JsMap.get k a) ≡ false = rw e' at q in
                      rw q' (ground (arith, string_eq.beq_iff (key o) k))))
        ]
    | inr e ↦ elim (Bool-cases (same_op o (JsMap.get j a))) [
      | inl q ↦ rw (q, e) (apply-changed a b s k w u)
      | inr q ↦
          rw (q, e)
            (apply-changed a b _ k w u
              ∙ ground (arith, string_eq.beq_iff (key o) k, string_eq.beq_iff j k))
    ]
  ]

  removed_total :
      (a b : JsMap String (PropertyOp V))
      → HasNames a
      → (r : Delta (PropertyOp V)) × (removed_ops b a ≡ ok r)
        × ((s : String → Option V) (k : String)
            → apply r s k ≡ (if JsMap.has k a && not (JsMap.has k b) then none else s k))
  unfolding removed_ops eval JsMap.has op_delete check_identifier
  removed_total [] b n = ([], refl, λ s k. refl)
  removed_total ((j, o) ∷ a) b (i, n) =
      let (r, e, m) = removed_total a b n in
      elim (Option-cases (JsMap.get j b)) [
        | inl q ↦ (
          delete j ∷ r,
          ground arith,
          λ s k. m _ k ∙ ground (arith, has-get j b, string_eq.beq_iff j k),
        )
        | inr (x, q) ↦
            (r, ground arith, λ s k. m s k ∙ ground (arith, has-get j b, string_eq.beq_iff j k))
      ]

  act_const : (o : PropertyOp V) (x y : Option V) → act o x ≡ act o y
  act_const (delete _) x y = refl
  act_const (set _) x y = refl

  changed_or_removed :
      (s t : Snapshot (PropertyOp V)) (k : String)
      → IsDocument s
      → IsDocument t
      → (if JsMap.has k (map_of s) && not (JsMap.has k (map_of t))
          then none
          else changed_at (map_of s) (JsMap.get k (map_of t)) k (meaning s.contents k))
        ≡ meaning t.contents k
  changed_or_removed s t k h g = elim (Option-cases (JsMap.get k (map_of t))) [
    | inl q ↦
        ground
          (arith, meaning-get s k h, meaning-get t k g, has-get k (map_of s), has-get k (map_of t))
    | inr (o, q) ↦ ground (
      arith,
      meaning-get s k h,
      meaning-get t k g,
      has-get k (map_of t),
      same_op_iff o (JsMap.get k (map_of s)),
      act_const o (meaning s.contents k) none,
    )
  ]

  -- The delta between two maps takes the properties of the one to those of the other.
  apply-diff :
      (s t : Snapshot (PropertyOp V))
      → IsDocument s
      → IsDocument t
      → HasNames (map_of s)
      → (d : Delta (PropertyOp V)) × (impl_diff_as_delta s t ≡ ok d)
        × ((k : String) → apply d (meaning s.contents) k ≡ meaning t.contents k)
  unfolding impl_diff_as_delta
  apply-diff s t h g n =
      let (r, e, m) = removed_total (map_of s) (map_of t) n in
      let c = changed_ops (map_of s) (map_of t) in
      let w = map_of-IsDocumentMap t g in
      (
        c ++ r,
        rw (properties-eq s h, properties-eq t g, e),
        λ k.
            eval-append key act c r (meaning s.contents) k
            ∙ m (apply c (meaning s.contents)) k
            ∙ rw (apply-changed (map_of s) (map_of t) (meaning s.contents) k w.keyed w.unique)
                (changed_or_removed s t k h g),
      )

  -- For two document snapshots, the older of which has only identifiers for names, `diff()` does
  -- not throw, and its change composed onto the older gives a snapshot that `equals()` the newer.
  pub compose-diff :
      (s t : Snapshot (PropertyOp V))
      → IsDocument s
      → IsDocument t
      → HasNames (map_of s)
      → (ch : Change (PropertyOp V)) × (r : Snapshot (PropertyOp V)) × (diff s t ≡ ok ch)
        × (compose property_class s ch ≡ ok r)
        × (equals r t ≡ ok true)
  unfolding diff eval
  compose-diff s t h g n = elim (Bool-cases (Delta.equals property_class s.contents t.contents)) [
    | inl q ↦
        let ch : Change (PropertyOp V) = change t.rev_num [] in
        let (r, e, d, n, m) = compose-meaning s ch h in
        (
          ch,
          r,
          diff_equal property_class impl_diff_as_delta s t q,
          e,
          (equals-meaning r t d g).1 (
            n,
            λ k.
                m k
                ∙ ap (λ (c : Delta (PropertyOp V)). meaning c k)
                    (eq_of_equals property_class op_equals_iff s.contents t.contents q),
          ),
        )
    | inr q ↦
        let (delta, e, a) = apply-diff s t h g n in
        let ch : Change (PropertyOp V) = change t.rev_num delta in
        let (r, f, d, n', m) = compose-meaning s ch h in
        (
          ch,
          r,
          diff_unequal property_class impl_diff_as_delta s t q e,
          f,
          (equals-meaning r t d g).1 (n', λ k. m k ∙ a k),
        )
  ]
