-- ===== src/JsMap/Keyed.antt =====
-- Maps from a key to an operation on that key: what `compose()` of the delta classes builds.
use bayou.Prelude.{
  ◌≡◌, refl, Option, none, some, List, [], ◌∷◌, ◌++◌, arith, Eq, ◌==◌, if◌then◌else◌, Bool-cases,
  inl, inr,
}
use bayou.JsMap.{JsMap, values, get, set, delete, Unique}

module _ {ℓ κ} {K : Type ℓ} {Op : Type κ} (key : Op → K) where
  -- Every operation stands under its own key.
  abbrev pub Keyed : JsMap K Op → Type ℓ
  Keyed [] = Unit
  Keyed ((k, v) ∷ m) = (key v ≡ k) × Keyed m

module _ {ℓ κ} {K : Type ℓ} {Op : Type κ} ⦃e : Eq K⦄ (key : Op → K) where
  pub set-Keyed :
      (k : K) (o : Op) (m : JsMap K Op) → key o ≡ k → Keyed key m → Keyed key (set k o m)
  unfolding set
  set-Keyed k o [] h w = (h, tt)
  set-Keyed k o ((j, v) ∷ m) h (p, w) = elim (Bool-cases (j == k)) [
    | inl q ↦ rw q (ground (arith, e.beq_iff j k), w)
    | inr q ↦ rw q (p, set-Keyed k o m h w)
  ]

  pub delete-Keyed : (k : K) (m : JsMap K Op) → Keyed key m → Keyed key (delete k m)
  unfolding delete
  delete-Keyed k [] w = tt
  delete-Keyed k ((j, v) ∷ m) (p, w) = elim (Bool-cases (j == k)) [
    | inl q ↦ rw q (delete-Keyed k m w)
    | inr q ↦ rw q (p, delete-Keyed k m w)
  ]

  pub key-get : (k : K) (m : JsMap K Op) {o : Op} → Keyed key m → get k m ≡ some o → key o ≡ k
  unfolding get
  key-get k [] w h = absurd (ground arith)
  key-get k ((j, v) ∷ m) {o} (p, w) h = elim (Bool-cases (j == k)) [
    | inl q ↦ ground (arith, e.beq_iff j k)
    | inr q ↦ key-get k m w (rw q at h)
  ]

module _ {ℓ κ μ} {K : Type ℓ} {Op : Type κ} {A : Type μ} ⦃e : Eq K⦄ (key : Op → K)
    (act : Op → A → A) where
  -- What a list of operations does to what each key stands for.
  unfoldable pub eval : List Op → (K → A) → K → A
  eval [] s k = s k
  eval (o ∷ os) s k = eval os (λ j. if key o == j then act o (s j) else s j) k

  -- What at most one operation does.
  abbrev pub act_option : Option Op → A → A
  act_option none a = a
  act_option (some o) a = act o a

  eval-none :
      (m : JsMap K Op) (s : K → A) (k : K)
      → Keyed key m
      → get k m ≡ none
      → eval (values m) s k ≡ s k
  unfolding eval get
  eval-none [] s k w h = refl
  eval-none ((j, o) ∷ m) s k (p, w) h = elim (Bool-cases (j == k)) [
    | inl q ↦ absurd (ground arith)
    | inr q ↦
        rw (eval-none m (λ i. if key o == i then act o (s i) else s i) k w (rw q at h))
          (ground (arith, e.beq_iff j k, e.beq_iff (key o) k))
  ]

  -- The values of a map act on each key by what the map holds there.
  pub eval-values :
      (m : JsMap K Op) (s : K → A) (k : K)
      → Keyed key m
      → Unique m
      → eval (values m) s k ≡ act_option (get k m) (s k)
  unfolding eval get
  eval-values [] s k w u = refl
  eval-values ((j, o) ∷ m) s k (p, w) (f, u) = elim (Bool-cases (j == k)) [
    | inl q ↦ rw q (
        rw
          (eval-none m (λ i. if key o == i then act o (s i) else s i) k w
            (ground (arith, e.beq_iff j k)))
          (ground (arith, e.beq_iff j k, e.beq_iff (key o) k)))
    | inr q ↦ rw q (
        rw (eval-values m (λ i. if key o == i then act o (s i) else s i) k w u)
          (ground (arith, e.beq_iff j k, e.beq_iff (key o) k)))
  ]

  -- What a list of operations makes of one key rests on that key alone.
  pub eval_local : (os : List Op) (s t : K → A) (k : K) → s k ≡ t k → eval os s k ≡ eval os t k
  unfolding eval
  eval_local [] s t k h = h
  eval_local (o ∷ os) s t k h = eval_local os _ _ k (ground (arith, h))

  pub eval-append :
      (os ps : List Op) (s : K → A) (k : K) → eval (os ++ ps) s k ≡ eval ps (eval os s) k
  unfolding eval
  eval-append [] ps s k = eval_local ps s (λ j. s j) k refl
  eval-append (o ∷ os) ps s k = eval-append os ps (λ j. if key o == j then act o (s j) else s j) k

  pub eval_empty :
      (os : List Op) (s : K → A) (k : K)
      → eval os (λ j. act_option (get j []) (s j)) k ≡ eval os s k
  unfolding get
  eval_empty os s k = eval_local os (λ j. act_option (get j []) (s j)) s k refl
