-- ===== src/JsMap.antt =====
-- JavaScript's `Map` and `Set`: insertion order is kept, and a write to a key that is there keeps
-- its place.
pub mod Keyed
pub mod Rewrite
pub mod Same
pub mod Distinct
pub mod Grouped
use bayou.Prelude.{
  ℕ, ◌≡◌, refl, ◌↔◌, Bool, true, false, Option, none, some, List, [], ◌∷◌, ◌||◌, arith, Eq, ◌==◌,
  if◌then◌else◌, Bool-cases, inl, inr, beq_self, map, length, suc,
}

abbrev pub JsMap {ℓ κ} : Type ℓ → Type κ → Type (ℓ ⊔ κ)
JsMap K V = List (K × V)

abbrev pub size {ℓ κ} : {K : Type ℓ} {V : Type κ} → JsMap K V → ℕ
size m = length m

abbrev pub values {ℓ κ} : {K : Type ℓ} {V : Type κ} → JsMap K V → List V
values [] = []
values ((_, v) ∷ m) = v ∷ values m

abbrev pub keys {ℓ κ} : {K : Type ℓ} {V : Type κ} → JsMap K V → List K
keys [] = []
keys ((k, _) ∷ m) = k ∷ keys m

module _ {ℓ κ} {K : Type ℓ} {V : Type κ} ⦃e : Eq K⦄ where
  unfoldable pub get : K → JsMap K V → Option V
  get k [] = none
  get k ((j, v) ∷ m) = if j == k then some v else get k m

  unfoldable pub has : K → JsMap K V → Bool
  has k [] = false
  has k ((j, _) ∷ m) = if j == k then true else has k m

  unfoldable pub set : K → V → JsMap K V → JsMap K V
  set k v [] = (k, v) ∷ []
  set k v ((j, w) ∷ m) = if j == k then (j, v) ∷ m else (j, w) ∷ set k v m

  unfoldable pub delete : K → JsMap K V → JsMap K V
  delete k [] = []
  delete k ((j, v) ∷ m) = let rest = delete k m in if j == k then rest else (j, v) ∷ rest

  pub get-set :
      (k j : K) (v : V) (m : JsMap K V) → get j (set k v m) ≡ (if k == j then some v else get j m)
  unfolding get set
  get-set k j v [] = refl
  get-set k j v ((i, w) ∷ m) =
      ground (arith, e.beq_iff k j, e.beq_iff i k, e.beq_iff i j, get-set k j v m)

  pub get-delete :
      (k j : K) (m : JsMap K V) → get j (delete k m) ≡ (if k == j then none else get j m)
  unfolding get delete
  get-delete k j [] = ground arith
  get-delete k j ((i, w) ∷ m) =
      ground (arith, e.beq_iff k j, e.beq_iff i k, e.beq_iff i j, get-delete k j m)

  -- No key occurs twice.
  abbrev pub Unique : JsMap K V → Type κ
  Unique [] = Unit
  Unique ((k, _) ∷ m) = (get k m ≡ none) × Unique m

  pub set-Unique : (k : K) (v : V) (m : JsMap K V) → Unique m → Unique (set k v m)
  unfolding get set
  set-Unique k v [] u = (refl, tt)
  set-Unique k v ((j, w) ∷ m) (f, u) = elim (Bool-cases (j == k)) [
    | inl p ↦ rw p (f, u)
    | inr p ↦
        rw p (ground (arith, get-set k j v m, e.beq_iff k j, e.beq_iff j k), set-Unique k v m u)
  ]

  pub delete-Unique : (k : K) (m : JsMap K V) → Unique m → Unique (delete k m)
  unfolding get delete
  delete-Unique k [] u = tt
  delete-Unique k ((j, w) ∷ m) (f, u) = elim (Bool-cases (j == k)) [
    | inl p ↦ rw p (delete-Unique k m u)
    | inr p ↦ rw p (ground (arith, get-delete k j m), delete-Unique k m u)
  ]
