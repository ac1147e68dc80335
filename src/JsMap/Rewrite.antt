-- ===== src/JsMap/Rewrite.antt =====
-- Writing the values of a map back into a map, in their order.
use bayou.Prelude.{
  ◌≡◌, refl, none, some, List, [], ◌∷◌, ◌++◌, append_assoc, append-nil, arith, Eq, ◌==◌,
  if◌then◌else◌, Bool-cases, Option-cases, inl, inr, sym, ◌∙◌,
}
use bayou.JsMap.{JsMap, values, get, set, get-set, Unique, set-Unique}
use bayou.JsMap.Keyed.{Keyed, eval, eval_local, act_option, eval_empty, eval-values, set-Keyed}

module _ {ℓ κ} {K : Type ℓ} {V : Type κ} ⦃e : Eq K⦄ where
  get-append :
      (k : K) (m n : JsMap K V)
      → get k (m ++ n) ≡ (elim (get k m) [ none ↦ get k n | some v ↦ some v ])
  unfolding get
  get-append k [] n = refl
  get-append k ((j, v) ∷ m) n = elim (Bool-cases (j == k)) [
    | inl q ↦ rw q
    | inr q ↦ rw q (get-append k m n)
  ]

  set_fresh : (k : K) (v : V) (m : JsMap K V) → get k m ≡ none → set k v m ≡ m ++ ((k, v) ∷ [])
  unfolding get set
  set_fresh k v [] h = refl
  set_fresh k v ((j, w) ∷ m) h = elim (Bool-cases (j == k)) [
    | inl q ↦ absurd (ground arith)
    | inr q ↦ rw q (rw (set_fresh k v m (rw q at h)))
  ]

  fresh : (m n : JsMap K V) (k : K) (v : V) → Unique (m ++ ((k, v) ∷ n)) → get k m ≡ none
  unfolding get
  fresh [] n k v u = refl
  fresh ((j, w) ∷ m) n k v (f, u) = elim (Bool-cases (j == k)) [
    | inl q ↦
        absurd (
          ground
            (arith, get-append j m ((k, v) ∷ n), fresh m n k v u, e.beq_iff j k, e.beq_iff k j))
    | inr q ↦ rw q (fresh m n k v u)
  ]

module _ {ℓ κ} {K : Type ℓ} {Op : Type κ} ⦃e : Eq K⦄ (key : Op → K) where
  -- The operations, in their order, each written under its key.
  unfoldable pub write_all : List Op → JsMap K Op → JsMap K Op
  write_all [] m = m
  write_all (o ∷ os) m = write_all os (set (key o) o m)

module _ {ℓ κ} {K : Type ℓ} {Op : Type κ} ⦃e : Eq K⦄ (key : Op → K) where
  write_all-append :
      (m n : JsMap K Op) → Keyed key n → Unique (m ++ n) → write_all key (values n) m ≡ m ++ n
  unfolding write_all
  write_all-append m [] w u = sym (append-nil m)
  write_all-append m ((k, o) ∷ n) (p, w) u =
      rw (write_all, p, set_fresh k o m (fresh m n k o u))
        (write_all-append (m ++ ((k, o) ∷ [])) n w (rw append_assoc u)
          ∙ append_assoc m ((k, o) ∷ []) n)

  -- The values of a map, written into an empty map, give the map.
  pub write_all-values : (m : JsMap K Op) → Keyed key m → Unique m → write_all key (values m) [] ≡ m
  write_all-values m w u = write_all-append [] m w u

  pub write_all_split :
      (a b : List Op) (m : JsMap K Op)
      → write_all key (a ++ b) m ≡ write_all key b (write_all key a m)
  unfolding write_all
  write_all_split [] b m = refl
  write_all_split (o ∷ a) b m = write_all_split a b (set (key o) o m)

module _ {ℓ κ μ} {K : Type ℓ} {Op : Type κ} {A : Type μ} ⦃e : Eq K⦄ (key : Op → K)
    (act : Op → A → A) (overrides : (o p : Op) (a : A) → act o (act p a) ≡ act o a) where
  overwrite :
      (o : Op) (m : JsMap K Op) (a : A) (k : K)
      → act_option key act (get k (set (key o) o m)) a ≡ (
          if key o == k
          then act o (act_option key act (get k m) a)
          else act_option key act (get k m) a)
  overwrite o m a k = elim (Option-cases (get k m)) [
    | inl q ↦ rw (q, get-set (key o) k o m) (ground (arith, q))
    | inr (p, q) ↦ rw (q, get-set (key o) k o m) (ground (arith, q, overrides o p a))
  ]

  -- Of the operations on one key the last alone counts.
  pub get-write_all :
      (os : List Op) (m : JsMap K Op) (s : K → A) (k : K)
      → act_option key act (get k (write_all key os m)) (s k)
        ≡ eval key act os (λ j. act_option key act (get j m) (s j)) k
  unfolding write_all eval
  get-write_all [] m s k = refl
  get-write_all (o ∷ os) m s k =
      get-write_all os (set (key o) o m) s k ∙ eval_local key act os _ _ k (overwrite o m (s k) k)

  write_all-Unique : (os : List Op) (m : JsMap K Op) → Unique m → Unique (write_all key os m)
  unfolding write_all
  write_all-Unique [] m u = u
  write_all-Unique (o ∷ os) m u = write_all-Unique os (set (key o) o m) (set-Unique (key o) o m u)

  write_all-Keyed : (os : List Op) (m : JsMap K Op) → Keyed key m → Keyed key (write_all key os m)
  unfolding write_all
  write_all-Keyed [] m w = w
  write_all-Keyed (o ∷ os) m w =
      write_all-Keyed os (set (key o) o m) (set-Keyed key (key o) o m refl w)

  -- The values of the map that a list of operations writes do what the operations do.
  pub eval-write_all :
      (os : List Op) (s : K → A) (k : K)
      → eval key act (values (write_all key os [])) s k ≡ eval key act os s k
  eval-write_all os s k =
      eval-values key act (write_all key os []) s k (write_all-Keyed os [] tt)
        (write_all-Unique os [] tt)
      ∙ get-write_all os [] s k
      ∙ eval_empty key act os s k
