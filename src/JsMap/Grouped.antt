-- ===== src/JsMap/Grouped.antt =====
-- Maps from a key to a list of operations on that key.
use bayou.Prelude.{
  ◌≡◌, refl, ◌∙◌, ap, subst, false, Option, none, some, List, [], ◌∷◌, ◌++◌, arith, Eq, ◌==◌,
  if◌then◌else◌, Bool-cases, inl, inr,
}
use bayou.JsMap.{JsMap, get, set, delete, Unique}
use bayou.JsMap.Keyed.{eval, eval-append}

-- `[].concat(...m.values())`
unfoldable pub concat {ℓ κ} : {K : Type ℓ} {Op : Type κ} → JsMap K (List Op) → List Op
concat [] = []
concat ((_, os) ∷ m) = os ++ concat m

-- The list of a key, which is empty when the key is missing.
abbrev pub list_of {κ} : {Op : Type κ} → Option (List Op) → List Op
list_of none = []
list_of (some os) = os

-- The operations on one key, in their order.
abbrev pub act_all {κ μ} : {Op : Type κ} {A : Type μ} → (Op → A → A) → List Op → A → A
act_all act [] a = a
act_all act (o ∷ os) a = act_all act os (act o a)

module _ {ℓ κ} {K : Type ℓ} {Op : Type κ} (key : Op → K) where
  -- Every operation of the list is on the key.
  abbrev pub AllOn : K → List Op → Type ℓ
  AllOn k [] = Unit
  AllOn k (o ∷ os) = (key o ≡ k) × AllOn k os

  abbrev pub Grouped : JsMap K (List Op) → Type ℓ
  Grouped [] = Unit
  Grouped ((k, os) ∷ m) = AllOn k os × Grouped m

module _ {ℓ κ μ} {K : Type ℓ} {Op : Type κ} {A : Type μ} ⦃e : Eq K⦄ (key : Op → K)
    (act : Op → A → A) where
  pub eval_own :
      (os : List Op) (s : K → A) (k : K)
      → AllOn key k os
      → eval key act os s k ≡ act_all act os (s k)
  unfolding eval
  eval_own [] s k h = refl
  eval_own (o ∷ os) s k (p, h) =
      eval_own os (λ j. if key o == j then act o (s j) else s j) k h
      ∙ ground (arith, e.beq_iff (key o) k)

  pub eval_other :
      (os : List Op) (s : K → A) (j k : K)
      → AllOn key j os
      → (j == k) ≡ false
      → eval key act os s k ≡ s k
  unfolding eval
  eval_other [] s j k h n = refl
  eval_other (o ∷ os) s j k (p, h) n =
      eval_other os (λ j. if key o == j then act o (s j) else s j) j k h n ∙ ground (arith, p)

  -- The lists of a map act on each key by the list that the map has there.
  pub eval-concat :
      (m : JsMap K (List Op)) (s : K → A) (k : K)
      → Grouped key m
      → Unique m
      → eval key act (concat m) s k ≡ act_all act (list_of (get k m)) (s k)
  unfolding eval get concat
  eval-concat [] s k w u = refl
  eval-concat ((j, os) ∷ m) s k (h, w) (f, u) = elim (Bool-cases (j == k)) [
    | inl q ↦
        let e' : j ≡ k = (e.beq_iff j k).0 q in
        let f' : get k m ≡ none = subst (λ i. get i m ≡ none) e' f in
        let o : AllOn key k os = subst (λ i. AllOn key i os) e' h in
        rw q (
          eval-append key act os (concat m) s k
          ∙ eval-concat m (eval key act os s) k w u
          ∙ ap (λ l. act_all act (list_of l) (eval key act os s k)) f'
          ∙ eval_own os s k o)
    | inr q ↦ rw q (
        eval-append key act os (concat m) s k
        ∙ eval-concat m (eval key act os s) k w u
        ∙ ap (act_all act (list_of (get k m))) (eval_other os s j k h q))
  ]

  pub set-Grouped :
      (k : K) (os : List Op) (m : JsMap K (List Op))
      → AllOn key k os
      → Grouped key m
      → Grouped key (set k os m)
  unfolding set
  set-Grouped k os [] h w = (h, tt)
  set-Grouped k os ((j, ps) ∷ m) h (p, w) = elim (Bool-cases (j == k)) [
    | inl q ↦ rw q (
      subst (λ i. AllOn key i os) ((e.beq_iff k j).0 (ground (arith, e.beq_iff j k, e.beq_iff k j)))
          h,
      w,
    )
    | inr q ↦ rw q (p, set-Grouped k os m h w)
  ]

  pub delete-Grouped : (k : K) (m : JsMap K (List Op)) → Grouped key m → Grouped key (delete k m)
  unfolding delete
  delete-Grouped k [] w = tt
  delete-Grouped k ((j, ps) ∷ m) (p, w) = elim (Bool-cases (j == k)) [
    | inl q ↦ rw q (delete-Grouped k m w)
    | inr q ↦ rw q (p, delete-Grouped k m w)
  ]

  pub Grouped-get :
      (k : K) (m : JsMap K (List Op)) {os : List Op}
      → Grouped key m
      → get k m ≡ some os
      → AllOn key k os
  unfolding get
  Grouped-get k [] w h = absurd (ground arith)
  Grouped-get k ((j, ps) ∷ m) {os} (p, w) h = elim (Bool-cases (j == k)) [
    | inl q ↦
        let same : ps ≡ os = ground (arith, h) in
        let e' : j ≡ k = (e.beq_iff j k).0 q in
        subst (λ l. AllOn key k l) same (subst (λ i. AllOn key i ps) e' p)
    | inr q ↦ Grouped-get k m w (rw q at h)
  ]
