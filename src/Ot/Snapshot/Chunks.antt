-- ===== src/Ot/Snapshot/Chunks.antt =====
-- About `composeAll()` of local-modules/@bayou/ot-common/BaseSnapshot.js.
use bayou.Prelude.{
  ℕ, zero, suc, ◌≤◌, ◌≡◌, refl, true, some, List, [], ◌∷◌, ◌++◌, map, Result, ok, ◌>>=◌, take, drop,
  length, length-drop, take-append-drop, arith, sym, ◌∙◌, ap, nat_eq, All, append-All, subst,
}
use mathlib.Core.List.{map-append}
use bayou.Ot.Delta
use bayou.Ot.Delta.{DeltaClass, is_empty, Delta}
use bayou.Ot.Delta.Laws.{IsDeltaClass, compose_total, compose_all-cons}
use bayou.Ot.Change.{Change}
use bayou.Ot.Snapshot.{Snapshot, make, compose, compose_chunks, compose_all, last_rev_num}

abbrev pub deltas : {Op : Type 0} → List (Change Op) → List (Delta Op)
deltas l = map (λ ch. ch.delta) l

-- The changes composed one at a time.
unfoldable pub compose_each :
    {Op : Type 0} → DeltaClass Op → Snapshot Op → List (Change Op) → Result (Snapshot Op)
compose_each c s [] = ok s
compose_each c s (x ∷ xs) = compose c s x >>= λ t. compose_each c t xs

module _ {Op : Type 0} {c : DeltaClass Op} {Valid : Delta Op → Type 0}
    (laws : IsDeltaClass c Valid) where
  pub compose_all_total :
      (d : Delta Op) (es : List (Delta Op))
      → Valid d
      → All Valid es
      → c.impl_is_document d ≡ true
      → (r : Delta Op) × (Delta.compose_all c d es true ≡ ok r)
        × (c.impl_is_document r ≡ true)
        × Valid r
  compose_all_total d [] v w h = (d, unfold Delta.compose_all in rw h, h, v)
  compose_all_total d (e ∷ es) v (y, w) h =
      let (m, p, _, q, vm) = compose_total laws d e v y h in
      let (r, s, t, vr) = compose_all_total m es vm w q in
      (r, rw (compose_all-cons laws d e es v y w h, p) s, t, vr)

  compose_all-append :
      (d : Delta Op) (es fs : List (Delta Op))
      → Valid d
      → All Valid es
      → All Valid fs
      → c.impl_is_document d ≡ true
      → Delta.compose_all c d (es ++ fs) true
        ≡ (Delta.compose_all c d es true >>= λ r. Delta.compose_all c r fs true)
  compose_all-append d [] fs v w x h = unfold Delta.compose_all in rw h
  compose_all-append d (e ∷ es) fs v (y, w) x h =
      let (m, p, _, q, vm) = compose_total laws d e v y h in
      rw
        (
          compose_all-cons laws d e es v y w h,
          compose_all-cons laws d e (es ++ fs) v y (append-All Valid es fs w x) h,
          p,
        )
        (compose_all-append m es fs vm w x q)

  -- A snapshot and changes that were made with valid arguments.
  abbrev pub AllValid : List (Change Op) → Type 0
  AllValid l = All Valid (deltas l)

  pub take-AllValid : (n : ℕ) (l : List (Change Op)) → AllValid l → AllValid (take n l)
  take-AllValid zero l w = tt
  take-AllValid (suc n) [] w = tt
  take-AllValid (suc n) (x ∷ l) (y, w) = (y, take-AllValid n l w)

  pub drop-AllValid : (n : ℕ) (l : List (Change Op)) → AllValid l → AllValid (drop n l)
  drop-AllValid zero l w = w
  drop-AllValid (suc n) [] w = tt
  drop-AllValid (suc n) (x ∷ l) (y, w) = drop-AllValid n l w

  pub compose_all-split :
      (n : ℕ) (d : Delta Op) (l : List (Change Op))
      → Valid d
      → AllValid l
      → c.impl_is_document d ≡ true
      → Delta.compose_all c d (deltas l) true ≡ (
          Delta.compose_all c d (deltas (take n l)) true >>= λ r.
          Delta.compose_all c r (deltas (drop n l)) true)
  compose_all-split n d l v w h =
      ap (λ (k : List (Change Op)). Delta.compose_all c d (deltas k) true)
        (sym (take-append-drop n l))
      ∙ ap (λ (k : List (Delta Op)). Delta.compose_all c d k true)
          (map-append (λ (ch : Change Op). ch.delta) (take n l) (drop n l))
      ∙ compose_all-append d (deltas (take n l)) (deltas (drop n l)) v (take-AllValid n l w)
          (drop-AllValid n l w) h

  compose_chunks-eq :
      (fuel per : ℕ) (d : Delta Op) (l : List (Change Op))
      → Valid d
      → AllValid l
      → c.impl_is_document d ≡ true
      → length l ≤ fuel
      → compose_chunks c fuel (suc per) d l ≡ some (Delta.compose_all c d (deltas l) true)
  unfolding compose_chunks Delta.compose_all
  compose_chunks-eq fuel per d [] v w h b = unfold Delta.compose_all in rw h
  compose_chunks-eq zero per d (x ∷ xs) v w h b = absurd (omega arith)
  compose_chunks-eq (suc fuel) per d (x ∷ xs) v w h b =
      let (m, p, q, vm) =
        compose_all_total d (deltas (take (suc per) (x ∷ xs))) v
          (take-AllValid (suc per) (x ∷ xs) w) h in
      rw p (
        rw (compose_all-split (suc per) d (x ∷ xs) v w h, p)
          (compose_chunks-eq fuel per m (drop (suc per) (x ∷ xs)) vm
            (drop-AllValid (suc per) (x ∷ xs) w) q (omega (arith, length-drop per xs))))

  -- Composing a change onto a document snapshot composes its delta onto the contents.
  pub snapshot-compose :
      (s : Snapshot Op) (x : Change Op)
      → Valid s.contents
      → Valid x.delta
      → c.impl_is_document s.contents ≡ true
      → (r : Delta Op) × (Delta.compose c s.contents x.delta true ≡ ok r)
        × (c.impl_compose s.contents x.delta true ≡ ok r)
        × (c.impl_is_document r ≡ true)
        × (compose c s x ≡ ok (record { rev_num = x.rev_num; contents = r }))
        × Valid r
  unfolding compose is_empty
  snapshot-compose s x v w h = go x.delta refl
    where
      go :
          (d : Delta Op)
          → x.delta ≡ d
          → (r : Delta Op) × (Delta.compose c s.contents x.delta true ≡ ok r)
            × (c.impl_compose s.contents x.delta true ≡ ok r)
            × (c.impl_is_document r ≡ true)
            × (compose c s x ≡ ok (record { rev_num = x.rev_num; contents = r }))
            × Valid r
      go [] e =
          let (m, p, p', q, _) = compose_total laws s.contents [] v laws.empty_valid h in
          (
            s.contents,
            rw e (p ∙ sym p' ∙ laws.compose_empty s.contents v h),
            rw e (laws.compose_empty s.contents v h),
            h,
            rw (e, h) (ground arith),
            v,
          )
      go (o ∷ os) e =
          let (m, p, p', q, vm) = compose_total laws s.contents (o ∷ os) v (subst Valid e w) h in
          (m, rw e p, rw e p', q, rw (e, p, q), vm)

  compose_each-eq :
      (s : Snapshot Op) (x : Change Op) (xs : List (Change Op))
      → Valid s.contents
      → AllValid (x ∷ xs)
      → c.impl_is_document s.contents ≡ true
      → compose_each c s (x ∷ xs) ≡ (
          Delta.compose_all c s.contents (deltas (x ∷ xs)) true >>= λ r.
          make c (last_rev_num x xs) r)
  unfolding compose_each
  compose_each-eq s x [] v (y, w) h =
      let (r, p, _, q, e, vr) = snapshot-compose s x v y h in
      rw (e, compose_all-cons laws s.contents x.delta [] v y tt h, p)
        (unfold Delta.compose_all make in rw (q, q))
  compose_each-eq s x (z ∷ zs) v (y, w) h =
      let (r, p, _, q, e, vr) = snapshot-compose s x v y h in
      let t : Snapshot Op = record { rev_num = x.rev_num; contents = r } in
      rw (e, compose_all-cons laws s.contents x.delta (deltas (z ∷ zs)) v y w h, p)
        (compose_each-eq t z zs vr w q)

  -- For a class that meets the contract, and valid deltas onto valid contents that are a document,
  -- `composeAll()` in rounds of one or more changes, with at least as many rounds allowed as there
  -- are changes, gives what composing the changes one by one gives.
  pub compose_all-eq :
      (fuel per : ℕ) (s : Snapshot Op) (l : List (Change Op))
      → Valid s.contents
      → AllValid l
      → c.impl_is_document s.contents ≡ true
      → length l ≤ fuel
      → compose_all c fuel (suc per) s l ≡ some (compose_each c s l)
  unfolding compose_all
  compose_all-eq fuel per s [] v w h b = unfold compose_each in refl
  compose_all-eq fuel per s (x ∷ xs) v w h b =
      rw (compose_chunks-eq fuel per s.contents (x ∷ xs) v w h b, compose_all)
        (ap some (sym (compose_each-eq s x xs v w h)))
