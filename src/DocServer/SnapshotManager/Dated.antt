-- ===== src/DocServer/SnapshotManager/Dated.antt =====
-- About the revisions of what local-modules/@bayou/doc-server/SnapshotManager.js caches.
use bayou.Prelude.{
  ℕ, zero, suc, ◌≡◌, refl, sym, ◌∙◌, subst, Bool-cases, inl, inr, some, Option-cases, ◌==◌, nat_eq,
  Result, ok, err, bad_use, bad_value, bad_data, wtf, type_error, file_not_found,
  revision_not_available, timed_out, no_fuel, check_failed, arith,
}
use bayou.JsMap
use bayou.JsMap.{JsMap, get-set}
use bayou.Ot.Delta
use bayou.Ot.Delta.{DeltaClass}
use bayou.Ot.Snapshot
use bayou.Ot.Snapshot.{Snapshot}
use bayou.DocServer.SnapshotManager.{newest, is_available}

pub available-kept : {S A : Type 0} (r : Result A × S) → (is_available r).1 ≡ r.1
available-kept (ok _, t) = refl
available-kept (err revision_not_available, t) = refl
available-kept (err bad_use, t) = refl
available-kept (err bad_value, t) = refl
available-kept (err bad_data, t) = refl
available-kept (err wtf, t) = refl
available-kept (err type_error, t) = refl
available-kept (err file_not_found, t) = refl
available-kept (err timed_out, t) = refl
available-kept (err no_fuel, t) = refl
available-kept (err (check_failed _), t) = refl

-- The snapshot of a result, if it has one, is of the revision.
abbrev pub IsOf : {Op : Type 0} → ℕ → Result (Snapshot Op) → Type 0
IsOf r (ok u) = u.rev_num ≡ r
IsOf r (err _) = Unit

-- Each snapshot that is cached is of the revision at which it is.
abbrev pub Dated : {Op : Type 0} → JsMap ℕ (Result (Snapshot Op)) → Type 0
Dated {Op} m = (i : ℕ) (x : Result (Snapshot Op)) → JsMap.get i m ≡ some x → IsOf i x

pub set-Dated :
    {Op : Type 0} (r : ℕ) (x : Result (Snapshot Op)) (m : JsMap ℕ (Result (Snapshot Op)))
    → IsOf r x
    → Dated m
    → Dated (JsMap.set r x m)
set-Dated {Op} r x m h d i y g = elim (Bool-cases (r == i)) [
  | inl q ↦
      let n : r ≡ i = ground (arith, q) in
      let e : x ≡ y = same_some x y (sym (get-set r i x m ∙ rw q refl) ∙ g) in
      subst (λ k. IsOf k y) n (subst (IsOf r) e h)
  | inr q ↦ d i y (sym (get-set r i x m ∙ rw q refl) ∙ g)
]
  where
    same_some : (x y : Result (Snapshot Op)) → some x ≡ some y → x ≡ y
    same_some x y h = cc

pub newest-get :
    {V : Type 0} (m : JsMap ℕ V) (r b : ℕ) (v : V)
    → newest m r ≡ some (b, v)
    → JsMap.get b m ≡ some v
unfolding newest
newest-get m zero b v h = elim (Option-cases (JsMap.get 0 m)) [
  | inl q ↦ absurd (ground (arith, q, h))
  | inr (x, q) ↦ ground (arith, q, h)
]
newest-get m (suc r) b v h = elim (Option-cases (JsMap.get (suc r) m)) [
  | inl q ↦ newest-get m r b v (rw (newest, q) at h)
  | inr (x, q) ↦ ground (arith, q, h)
]

pub made-IsOf :
    {Op : Type 0} (class : DeltaClass Op) (r : ℕ) (contents : Delta.Delta Op)
    → IsOf r (Snapshot.make class r contents)
unfolding Snapshot.make
made-IsOf class r contents = elim (Bool-cases (class.impl_is_document contents)) [
  | inl q ↦ rw q refl
  | inr q ↦ rw q tt
]
