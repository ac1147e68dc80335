-- ===== src/FileStoreLocal/Storage/Order.antt =====
-- About the changes that local-modules/@bayou/file-store-local/LocalFile.js reads, in any order.
use mathlib.Core.List.{Permᴰ}
use mathlib.Core.List.Permᴰ.{nil, cons, swap, trans, symm}
use bayou.Prelude.{
  ℕ, zero, suc, ◌<◌, ◌≡◌, ◌≢◌, refl, sym, ◌∙◌, ap, subst, none, List, [], ◌∷◌, ◌++◌, append_assoc,
  append-nil, length, length-append, All, arith,
}
use bayou.Ot.Change.{Change}
use bayou.Ot.Snapshot.History.{Numbered}
use bayou.FileStoreLocal.SparseArray
use bayou.FileStoreLocal.SparseArray.{SparseArray, full, set-full}

module _ {A : Type 0} where
  pub perm-All : (P : A → Type 0) {l m : List A} → Permᴰ l m → All P l → All P m
  perm-All P nil h = tt
  perm-All P (cons e p) (x, h) = (subst P e x, perm-All P p h)
  perm-All P (swap e f) (x, (y, h)) = (subst P f y, (subst P e x, h))
  perm-All P (trans p q) h = perm-All P q (perm-All P p h)

  pub perm-length : {l m : List A} → Permᴰ l m → length l ≡ length m
  perm-length nil = refl
  perm-length (cons e p) = omega (arith, perm-length p)
  perm-length (swap e f) = omega arith
  perm-length (trans p q) = perm-length p ∙ perm-length q

  set-set :
      (i j : ℕ) (x y : A) (a : SparseArray A)
      → i ≢ j
      → SparseArray.set i x (SparseArray.set j y a) ≡ SparseArray.set j y (SparseArray.set i x a)
  unfolding SparseArray.set
  set-set zero zero x y a h = absurd (h refl)
  set-set zero (suc j) x y [] h = refl
  set-set zero (suc j) x y (v ∷ a) h = refl
  set-set (suc i) zero x y [] h = refl
  set-set (suc i) zero x y (v ∷ a) h = refl
  set-set (suc i) (suc j) x y [] h =
      ap (λ r. none ∷ r) (set-set i j x y [] (λ e. h (ap (λ n. suc n) e)))
  set-set (suc i) (suc j) x y (v ∷ a) h =
      ap (λ r. v ∷ r) (set-set i j x y a (λ e. h (ap (λ n. suc n) e)))

module _ {Op : Type 0} where
  -- No two changes have one revision number.
  abbrev pub Distinct : List (Change Op) → Type 0
  Distinct [] = Unit
  Distinct (x ∷ l) = All (λ (y : Change Op). x.rev_num ≢ y.rev_num) l × Distinct l

  perm-Distinct : {l m : List (Change Op)} → Permᴰ l m → Distinct l → Distinct m
  perm-Distinct nil d = tt
  perm-Distinct (cons {b = b} {l₂ = l₂} e p) (h, d) = (
    subst (λ (x : Change Op). All (λ (y : Change Op). x.rev_num ≢ y.rev_num) l₂) e (perm-All _ p h),
    perm-Distinct p d,
  )
  perm-Distinct (swap {l = l} e f) ((n, h), (k, d)) = (
    (
      λ q.
          n (
            ap (λ (x : Change Op). x.rev_num) e
            ∙ sym q
            ∙ sym (ap (λ (x : Change Op). x.rev_num) f)),
      subst (λ (x : Change Op). All (λ (y : Change Op). x.rev_num ≢ y.rev_num) l) f k,
    ),
    (subst (λ (x : Change Op). All (λ (y : Change Op). x.rev_num ≢ y.rev_num) l) e h, d),
  )
  perm-Distinct (trans p q) d = perm-Distinct q (perm-Distinct p d)

  -- Each change put at its index.
  unfoldable pub place : List (Change Op) → SparseArray (Change Op) → SparseArray (Change Op)
  place [] a = a
  place (x ∷ l) a = place l (SparseArray.set x.rev_num x a)

  place-perm :
      {l m : List (Change Op)}
      → Permᴰ l m
      → Distinct l
      → (a : SparseArray (Change Op)) → place l a ≡ place m a
  unfolding place
  place-perm nil d a = refl
  place-perm (cons {l₂ = l₂} e p) (h, d) a =
      place-perm p d _ ∙ ap (λ (x : Change Op). place l₂ (SparseArray.set x.rev_num x a)) e
  place-perm (swap {a = x} {b = y} {a' = a'} {l = l} e f) ((n, h), d) a = ap (place l) (
      sym (set-set x.rev_num y.rev_num x y a n)
      ∙ ap (λ (z : Change Op). SparseArray.set x.rev_num x (SparseArray.set z.rev_num z a)) f
      ∙ ap (λ (z : Change Op). SparseArray.set z.rev_num z (SparseArray.set a'.rev_num a' a)) e)
  place-perm (trans p q) d a = place-perm p d a ∙ place-perm q (perm-Distinct p d) a

  above :
      (n k : ℕ) (x : Change Op) (l : List (Change Op))
      → x.rev_num ≡ n
      → n < k
      → Numbered k l
      → All (λ (y : Change Op). x.rev_num ≢ y.rev_num) l
  above n k x [] e h m = tt
  above n k x (y ∷ l) e h (q, m) =
      ((λ p. absurd (omega (arith, p, e, q, h))), above n (suc k) x l e (omega (arith, h)) m)

  Numbered-Distinct : (n : ℕ) (l : List (Change Op)) → Numbered n l → Distinct l
  Numbered-Distinct n [] m = tt
  Numbered-Distinct n (x ∷ l) (q, m) =
      (above n (suc n) x l q (omega arith) m, Numbered-Distinct (suc n) l m)

  place-Numbered :
      (pre l : List (Change Op)) → Numbered (length pre) l → place l (full pre) ≡ full (pre ++ l)
  unfolding place
  place-Numbered pre [] m = ap full (sym (append-nil pre))
  place-Numbered pre (x ∷ l) (q, m) =
      ap (λ n. place l (SparseArray.set n x (full pre))) q
      ∙ ap (place l) (set-full x pre)
      ∙ place-Numbered (pre ++ (x ∷ [])) l
          (subst (λ n. Numbered n l) (omega (arith, length-append pre (x ∷ []))) m)
      ∙ ap full (append_assoc pre (x ∷ []) l)

  pub Numbered-perm : (l m : List (Change Op)) → Numbered 0 l → Permᴰ m l → Distinct m
  Numbered-perm l m n p = perm-Distinct (symm p) (Numbered-Distinct 0 l n)

  -- Changes with the numbers from 0 on, placed in any order, give the array of them.
  pub place-Permᴰ : (l m : List (Change Op)) → Numbered 0 l → Permᴰ m l → place m [] ≡ full l
  place-Permᴰ l m n p = place-perm p (Numbered-perm l m n p) [] ∙ place-Numbered [] l n
