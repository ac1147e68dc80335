-- ===== src/JsMap/Same.antt =====
-- Two maps of one size are the same map when each entry of the first is in the second.
use bayou.Prelude.{
  suc, ◌≤◌, ◌≡◌, none, some, [], ◌∷◌, arith, Eq, ◌==◌, Bool-cases, Option-cases, inl, inr,
}
use bayou.JsMap.{JsMap, get, delete, size, get-delete, Unique}

module _ {ℓ κ} {K : Type ℓ} {V : Type κ} ⦃e : Eq K⦄ where
  -- Each entry of the first map is in the second.
  pub record IsWithin (a b : JsMap K V) : Type (ℓ ⊔ κ) where
    pub apply : (k : K) (v : V) → get k a ≡ some v → get k b ≡ some v

  size-delete : (k : K) (m : JsMap K V) → size (delete k m) ≤ size m
  unfolding delete
  size-delete k [] = omega arith
  size-delete k ((j, w) ∷ m) = ground (arith, size-delete k m)

  size-delete-some :
      (k : K) (m : JsMap K V) {v : V} → get k m ≡ some v → suc (size (delete k m)) ≤ size m
  unfolding get delete
  size-delete-some k [] h = absurd (ground arith)
  size-delete-some k ((j, w) ∷ m) h = elim (Bool-cases (j == k)) [
    | inl q ↦ rw q (omega (arith, size-delete k m))
    | inr q ↦ rw q (omega (arith, size-delete-some k m (rw q at h)))
  ]

  head-get : (k : K) (v : V) (a : JsMap K V) → get k ((k, v) ∷ a) ≡ some v
  unfolding get
  head-get k v a = ground (arith, e.beq_iff k k)

  tail-IsWithin :
      (k : K) (v : V) (a b : JsMap K V)
      → get k a ≡ none
      → IsWithin ((k, v) ∷ a) b
      → IsWithin a (delete k b)
  unfolding get
  tail-IsWithin k v a b f h = record {
    apply = λ j w p. rw (get-delete k j b) (ground (arith, h.apply j w, e.beq_iff k j));
  }

  size_le : (a b : JsMap K V) → Unique a → IsWithin a b → size a ≤ size b
  size_le [] b u h = omega arith
  size_le ((k, v) ∷ a) b (f, u) h = omega (
    arith,
    size_le a (delete k b) u (tail-IsWithin k v a b f h),
    size-delete-some k b (h.apply k v (head-get k v a)),
  )

  -- The pigeonhole step: with no more entries than the first, the second has no others.
  pub IsWithin-symm : (a b : JsMap K V) → Unique a → size b ≤ size a → IsWithin a b → IsWithin b a
  IsWithin-symm a b u s h = record {
    apply = λ k v p. elim (Option-cases (get k a)) [
      | inl q ↦ absurd (
          omega (
            arith,
            size-delete-some k b p,
            size_le a (delete k b) u (record {
              apply = λ j w r. rw (get-delete k j b) (ground (arith, h.apply j w, e.beq_iff k j));
            }),
          ))
      | inr (w, q) ↦ ground (arith, h.apply k w)
    ];
  }

  pub get-IsWithin : (a b : JsMap K V) (k : K) → IsWithin a b → IsWithin b a → get k a ≡ get k b
  get-IsWithin a b k h g = elim (Option-cases (get k a)) [
    | inl p ↦ elim (Option-cases (get k b)) [
      | inl q ↦ ground arith
      | inr (w, q) ↦ absurd (ground (arith, g.apply k w))
    ]
    | inr (v, p) ↦ ground (arith, h.apply k v)
  ]

  -- Maps that hold the same have the same size.
  pub size_eq :
      (a b : JsMap K V) → Unique a → Unique b → ((k : K) → get k a ≡ get k b) → size a ≡ size b
  size_eq a b u w h = omega (
    arith,
    size_le a b u (record { apply = λ k v p. ground (arith, h k) }),
    size_le b a w (record { apply = λ k v p. ground (arith, h k) }),
  )
