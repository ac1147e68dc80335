-- ===== src/Ot/Delta/Laws.antt =====
-- The contract between local-modules/@bayou/ot-common/BaseDelta.js and its subclasses.
use bayou.Prelude.{
  ◌≡◌, refl, true, List, [], ◌∷◌, Result, ok, err, ◌>>=◌, arith, Bool-cases, inl, inr, length, ◌↔◌,
  All,
}
use bayou.Ot.Delta.{
  Delta, DeltaClass, check_result, compose_all, compose, compose_steps, base_compose_all, ops_equal,
  equals,
}

-- What the framework relies on when it composes onto a document. `Valid` are the deltas whose
-- operations were made with valid arguments.
pub record IsDeltaClass {Op : Type 0} (c : DeltaClass Op) (Valid : Delta Op → Type 0) : Type 0 where
  -- A composition onto a document succeeds, and gives a document.
  pub compose_document :
      (d e : Delta Op)
      → Valid d
      → Valid e
      → c.impl_is_document d ≡ true
      → (r : Delta Op) × (c.impl_compose d e true ≡ ok r) × (c.impl_is_document r ≡ true) × Valid r
  -- Composing nothing onto a document changes nothing.
  pub compose_empty :
      (d : Delta Op) → Valid d → c.impl_is_document d ≡ true → c.impl_compose d [] true ≡ ok d
  pub empty_valid : Valid []
  -- Composing many deltas onto a document is composing the first, and then the others.
  pub compose_many :
      (d e f : Delta Op) (fs : List (Delta Op))
      → Valid d
      → Valid e
      → Valid f
      → All Valid fs
      → c.impl_is_document d ≡ true
      → c.impl_compose_all d (e ∷ f ∷ fs) true
        ≡ (c.impl_compose d e true >>= λ r. compose_all c r (f ∷ fs) true)

module _ {Op : Type 0} (c : DeltaClass Op) where
  check_result_idem :
      (m : Result (Delta Op))
      → ((m >>= λ r. check_result c r true) >>= λ r. check_result c r true)
        ≡ (m >>= λ r. check_result c r true)
  unfolding check_result
  check_result_idem (ok r) = elim (Bool-cases (c.impl_is_document r)) [
    | inl p ↦ rw p (rw p)
    | inr p ↦ rw p
  ]
  check_result_idem (err e) = refl

  check-compose_all :
      (d e : Delta Op) (es : List (Delta Op))
      → (compose_all c d (e ∷ es) true >>= λ r. check_result c r true)
        ≡ compose_all c d (e ∷ es) true
  unfolding compose_all
  check-compose_all d e [] = elim (Bool-cases (c.impl_is_document d)) [
    | inl p ↦ rw p (check_result_idem (c.impl_compose d e true))
    | inr p ↦ rw p
  ]
  check-compose_all d e (f ∷ fs) = elim (Bool-cases (c.impl_is_document d)) [
    | inl p ↦ rw p (check_result_idem (c.impl_compose_all d (e ∷ f ∷ fs) true))
    | inr p ↦ rw p
  ]

module _ {Op : Type 0} {c : DeltaClass Op} {Valid : Delta Op → Type 0}
    (laws : IsDeltaClass c Valid) where
  -- `compose()` onto a document never throws, and its result is a document.
  pub compose_total :
      (d e : Delta Op)
      → Valid d
      → Valid e
      → c.impl_is_document d ≡ true
      → (r : Delta Op) × (compose c d e true ≡ ok r)
        × (c.impl_compose d e true ≡ ok r)
        × (c.impl_is_document r ≡ true)
        × Valid r
  unfolding compose
  compose_total d e a b h =
      let (r, p, q, v) = laws.compose_document d e a b h in (r, rw (h, p, q), p, q, v)

  -- On a document `composeAll()` takes the deltas one at a time.
  pub compose_all-cons :
      (d e : Delta Op) (es : List (Delta Op))
      → Valid d
      → Valid e
      → All Valid es
      → c.impl_is_document d ≡ true
      → compose_all c d (e ∷ es) true ≡ (compose c d e true >>= λ r. compose_all c r es true)
  unfolding compose_all
  compose_all-cons d e [] a b w h =
      let (r, p, p', q, v) = compose_total d e a b h in rw (h, p, p', q)
  compose_all-cons d e (f ∷ fs) a b (y, w) h =
      let (r, p, p', q, v) = compose_total d e a b h in
      rw (h, laws.compose_many d e f fs a b y w h, p, p') (check-compose_all c r f fs)

-- A class that keeps the base class's `_impl_composeAll` has `compose_many` for nothing.
module _ {Op : Type 0} (c : DeltaClass Op) (Valid : Delta Op → Type 0)
    (compose_document : (d e : Delta Op)
      → Valid d
      → Valid e
      → c.impl_is_document d ≡ true
      → (r : Delta Op) × (c.impl_compose d e true ≡ ok r)
        × (c.impl_is_document r ≡ true)
        × Valid r) where
  abbrev steps : Delta Op → List (Delta Op) → Result (Delta Op)
  steps d es = compose_steps c.impl_compose c.impl_is_document d es true

  steps_total :
      (d : Delta Op) (es : List (Delta Op))
      → Valid d
      → All Valid es
      → c.impl_is_document d ≡ true
      → (r : Delta Op) × (steps d es ≡ ok r) × (c.impl_is_document r ≡ true)
  unfolding compose_steps
  steps_total d [] a w h = (d, refl, h)
  steps_total d (e ∷ es) a (b, w) h =
      let (m, p, q, v) = compose_document d e a b h in
      let (r, s, t) = steps_total m es v w q in (r, rw (h, p) s, t)

  pub base_compose_many :
      (d e f : Delta Op) (fs : List (Delta Op))
      → Valid d
      → Valid e
      → Valid f
      → All Valid fs
      → c.impl_is_document d ≡ true
      → ((g : Delta Op) (gs : List (Delta Op))
          → c.impl_compose_all g gs true
            ≡ base_compose_all c.impl_compose c.impl_is_document g gs true)
      → c.impl_compose_all d (e ∷ f ∷ fs) true
        ≡ (c.impl_compose d e true >>= λ r. compose_all c r (f ∷ fs) true)
  unfolding compose_all base_compose_all
  base_compose_many d e f [] vd ve vf w h base =
      let (m, p, q, v) = compose_document d e vd ve h in
      let (r, s, t, _) = compose_document m f v vf q in rw (base, p) (rw (q, s) (rw t))
  base_compose_many d e f (g ∷ gs) vd ve vf w h base =
      let (m, p, q, v) = compose_document d e vd ve h in
      let (r, s, t, v') = compose_document m f v vf q in
      let (z, u, v) = steps_total r (g ∷ gs) v' w t in rw (base, p, q) (rw (base, s) (rw u (rw v)))

module _ {Op : Type 0} (c : DeltaClass Op)
    (op_equals_iff : (a b : Op) → (c.op_equals a b ≡ true) ↔ (a ≡ b)) where
  ops_equal_iff : (a b : Delta Op) → length a ≡ length b → ops_equal c a b ≡ true → a ≡ b
  unfolding ops_equal
  ops_equal_iff [] [] l h = refl
  ops_equal_iff [] (y ∷ b) l h = absurd (omega arith)
  ops_equal_iff (x ∷ a) [] l h = absurd (omega arith)
  ops_equal_iff (x ∷ a) (y ∷ b) l h = ground (arith, op_equals_iff x y, ops_equal_iff a b)

  -- Equal deltas are the same lists of operations.
  pub eq_of_equals : (a b : Delta Op) → equals c a b ≡ true → a ≡ b
  unfolding equals
  eq_of_equals a b h = ground (arith, ops_equal_iff a b)
