-- ===== src/Prelude/Lists.antt =====
-- Lists measured and indexed by native numbers, under the library's names.
use Prim.Native.Nat.{ℕ, zero, suc, ◌+◌, ◌-◌, ◌<◌, ◌≤◌}
use mathlib.Core.Path.{◌≡◌, refl, sym, ◌∙◌}
use mathlib.Core.List.{List, [], ◌∷◌, ◌++◌}
use mathlib.Core.Option.{Option, none, some}
use bayou.Prelude.Tests.{◌==◌, nat_eq, if◌then◌else◌}
use native.Mathlib.Omega.{arith}

module _ {ℓ} {A : Type ℓ} where
  abbrev pub length : List A → ℕ
  length [] = 0
  length (x ∷ xs) = suc (length xs)

  abbrev pub take : ℕ → List A → List A
  take zero xs = []
  take (suc n) [] = []
  take (suc n) (x ∷ xs) = x ∷ take n xs

  abbrev pub drop : ℕ → List A → List A
  drop zero xs = xs
  drop (suc n) [] = []
  drop (suc n) (x ∷ xs) = drop n xs

  pub length-append : (xs ys : List A) → length (xs ++ ys) ≡ length xs + length ys
  length-append [] ys = omega arith
  length-append (x ∷ xs) ys = omega (arith, length-append xs ys)

  pub take-append-drop : (n : ℕ) (xs : List A) → take n xs ++ drop n xs ≡ xs
  take-append-drop zero xs = refl
  take-append-drop (suc n) [] = refl
  take-append-drop (suc n) (x ∷ xs) = rw (take-append-drop n xs)

  pub length-drop : (n : ℕ) (xs : List A) → length (drop n xs) ≡ length xs - n
  length-drop zero xs = omega arith
  length-drop (suc n) [] = omega arith
  length-drop (suc n) (x ∷ xs) = omega (arith, length-drop n xs)

  -- What the list has at an index.
  abbrev pub nth : ℕ → List A → Option A
  nth n [] = none
  nth zero (x ∷ l) = some x
  nth (suc n) (x ∷ l) = nth n l

  pub nth-inside : (n : ℕ) (l : List A) → n < length l → (x : A) × (nth n l ≡ some x)
  nth-inside n [] h = absurd (omega arith)
  nth-inside zero (x ∷ l) h = (x, refl)
  nth-inside (suc n) (x ∷ l) h = nth-inside n l (omega arith)

  pub nth-outside : (n : ℕ) (l : List A) → length l ≤ n → nth n l ≡ none
  nth-outside n [] h = refl
  nth-outside zero (x ∷ l) h = absurd (omega arith)
  nth-outside (suc n) (x ∷ l) h = nth-outside n l (omega arith)

  pub nth-append :
      (n : ℕ) (l : List A) (x : A)
      → nth n (l ++ (x ∷ [])) ≡ (if n == length l then some x else nth n l)
  nth-append zero [] x = refl
  nth-append (suc n) [] x = ground arith
  nth-append zero (y ∷ l) x = ground arith
  nth-append (suc n) (y ∷ l) x = ground (arith, nth-append n l x)

  pub drop-nth : (n : ℕ) (l : List A) (x : A) → nth n l ≡ some x → drop n l ≡ x ∷ drop (suc n) l
  drop-nth n [] x h = absurd (ground arith)
  drop-nth zero (y ∷ l) x h = ground (arith, h)
  drop-nth (suc n) (y ∷ l) x h = drop-nth n l x h

  pub take-take : (k n : ℕ) (l : List A) → k ≤ n → take k (take n l) ≡ take k l
  take-take zero n l h = refl
  take-take (suc k) zero l h = absurd (omega arith)
  take-take (suc k) (suc n) [] h = refl
  take-take (suc k) (suc n) (x ∷ l) h = rw (take-take k n l (omega arith))

  take_none : (n : ℕ) → take n [] ≡ []
  take_none zero = refl
  take_none (suc n) = refl

  drop_none : (n : ℕ) → drop n [] ≡ []
  drop_none zero = refl
  drop_none (suc n) = refl

  pub drop-take : (k n : ℕ) (l : List A) → drop k (take n l) ≡ take (n - k) (drop k l)
  drop-take zero n l = let e : n - 0 ≡ n = omega arith in rw e refl
  drop-take (suc k) zero l = let e : 0 - suc k ≡ 0 = omega arith in rw e refl
  drop-take (suc k) (suc n) [] = sym (take_none (suc n - suc k))
  drop-take (suc k) (suc n) (x ∷ l) =
      let e : suc n - suc k ≡ n - k = omega arith in rw e (drop-take k n l)

  pub drop-drop : (k n : ℕ) (l : List A) → drop k (drop n l) ≡ drop (n + k) l
  drop-drop k zero l = let e : 0 + k ≡ k = omega arith in rw e refl
  drop-drop k (suc n) [] = drop_none k ∙ sym (drop_none (suc n + k))
  drop-drop k (suc n) (x ∷ l) =
      let e : suc n + k ≡ suc (n + k) = omega arith in rw e (drop-drop k n l)

-- A predicate on every element, by recursion: it computes to tuples.
abbrev pub All {ℓ κ} : {A : Type ℓ} → (A → Type κ) → List A → Type κ
All P [] = Unit
All P (x ∷ xs) = P x × All P xs

module _ {ℓ κ} {A : Type ℓ} (P : A → Type κ) where
  pub append-All : (xs ys : List A) → All P xs → All P ys → All P (xs ++ ys)
  append-All [] ys v w = w
  append-All (x ∷ xs) ys (p, v) w = (p, append-All xs ys v w)
