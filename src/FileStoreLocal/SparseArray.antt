-- ===== src/FileStoreLocal/SparseArray.antt =====
-- JavaScript's arrays, which may have holes, as LocalFile.js uses them: `[i]`, `[i] = x`, `slice()`.
use bayou.Prelude.{
  nth, ℕ, zero, suc, ◌-◌, ◌≡◌, refl, Option, none, some, List, [], ◌∷◌, ◌++◌, map, length, take,
  drop, Result, ok, err, bad_value, ◌>>=◌, arith,
}

abbrev pub SparseArray : Type 0 → Type 0
SparseArray A = List (Option A)

module _ {A : Type 0} where
  unfoldable pub get : ℕ → SparseArray A → Option A
  get n [] = none
  get zero (x ∷ xs) = x
  get (suc n) (x ∷ xs) = get n xs

  -- Storing behind the end leaves holes.
  unfoldable pub set : ℕ → A → SparseArray A → SparseArray A
  set zero v [] = some v ∷ []
  set zero v (x ∷ xs) = some v ∷ xs
  set (suc n) v [] = none ∷ set n v []
  set (suc n) v (x ∷ xs) = x ∷ set n v xs

  abbrev pub slice : ℕ → ℕ → SparseArray A → SparseArray A
  slice start end xs = take (end - start) (drop start xs)

  -- The elements, each of which is checked: a hole does not pass.
  unfoldable pub elements : SparseArray A → Result (List A)
  elements [] = ok []
  elements (none ∷ xs) = err bad_value
  elements (some x ∷ xs) = elements xs >>= λ rest. ok (x ∷ rest)

  -- An array without holes.
  abbrev pub full : List A → SparseArray A
  full l = map (λ x. some x) l

  pub length-full : (l : List A) → length (full l) ≡ length l
  length-full [] = refl
  length-full (x ∷ l) = omega (arith, length-full l)

  pub get-full : (n : ℕ) (l : List A) → get n (full l) ≡ nth n l
  unfolding get
  get-full n [] = refl
  get-full zero (x ∷ l) = refl
  get-full (suc n) (x ∷ l) = get-full n l

  pub set-full : (v : A) (l : List A) → set (length l) v (full l) ≡ full (l ++ (v ∷ []))
  unfolding set
  set-full v [] = refl
  set-full v (x ∷ l) = rw (set-full v l)

  pub elements-full : (l : List A) → elements (full l) ≡ ok l
  unfolding elements
  elements-full [] = refl
  elements-full (x ∷ l) = rw (elements-full l)

  take-full : (n : ℕ) (l : List A) → take n (full l) ≡ full (take n l)
  take-full zero l = refl
  take-full (suc n) [] = refl
  take-full (suc n) (x ∷ l) = rw (take-full n l)

  drop-full : (n : ℕ) (l : List A) → drop n (full l) ≡ full (drop n l)
  drop-full zero l = refl
  drop-full (suc n) [] = refl
  drop-full (suc n) (x ∷ l) = drop-full n l

  pub slice-full :
      (start end : ℕ) (l : List A)
      → slice start end (full l) ≡ full (take (end - start) (drop start l))
  slice-full start end l = rw (drop-full start l, take-full (end - start) (drop start l))
