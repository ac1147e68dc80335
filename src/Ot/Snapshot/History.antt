-- ===== src/Ot/Snapshot/History.antt =====
-- About changes with consecutive revision numbers, composed one by one by BaseSnapshot.js of
-- local-modules/@bayou/ot-common.
use bayou.Prelude.{
  ℕ, zero, suc, ◌+◌, ◌-◌, ◌≤◌, ◌≡◌, refl, sym, ◌∙◌, ap, true, List, [], ◌∷◌, ◌++◌, Result, ok, err,
  ◌>>=◌, take, drop, length, arith, subst,
}
use bayou.Ot.Delta.{DeltaClass, Delta}
use bayou.Ot.Delta.Laws.{IsDeltaClass}
use bayou.Ot.Change.{Change}
use bayou.Ot.Snapshot.{Snapshot, compose}
use bayou.Ot.Snapshot.Chunks.{compose_each, snapshot-compose, AllValid}

bind_assoc :
    {A B C : Type 0} (m : Result A) (f : A → Result B) (g : B → Result C) (h : A → Result C)
    → ((t : A) → h t ≡ (f t >>= g))
    → (m >>= h) ≡ ((m >>= f) >>= g)
bind_assoc (ok t) f g h e = e t
bind_assoc (err _) f g h e = refl

-- The changes have the revision numbers from `n` on.
abbrev pub Numbered : {Op : Type 0} → ℕ → List (Change Op) → Type 0
Numbered n [] = Unit
Numbered n (x ∷ xs) = (x.rev_num ≡ n) × Numbered (suc n) xs

module _ {Op : Type 0} where
  pub take-Numbered : (k n : ℕ) (l : List (Change Op)) → Numbered n l → Numbered n (take k l)
  take-Numbered zero n l h = tt
  take-Numbered (suc k) n [] h = tt
  take-Numbered (suc k) n (x ∷ l) (p, h) = (p, take-Numbered k (suc n) l h)

  pub drop-Numbered : (k n : ℕ) (l : List (Change Op)) → Numbered n l → Numbered (k + n) (drop k l)
  drop-Numbered zero n l h = subst (λ m. Numbered m l) (omega arith) h
  drop-Numbered (suc k) n [] h = tt
  drop-Numbered (suc k) n (x ∷ l) (p, h) =
      subst (λ m. Numbered m (drop k l)) (omega arith) (drop-Numbered k (suc n) l h)

  pub append-Numbered :
      (n : ℕ) (l : List (Change Op)) (x : Change Op)
      → Numbered n l
      → x.rev_num ≡ length l + n
      → Numbered n (l ++ (x ∷ []))
  append-Numbered n [] x h p = (omega (arith, p), tt)
  append-Numbered n (y ∷ l) x (q, h) p = (q, append-Numbered (suc n) l x h (omega (arith, p)))

  take-nil : (k : ℕ) → take {A = Change Op} k [] ≡ []
  take-nil zero = refl
  take-nil (suc k) = refl

  pub take-split :
      (k r : ℕ) (l : List (Change Op)) → k ≤ r → take r l ≡ take k l ++ take (r - k) (drop k l)
  take-split zero r l h = ap (λ n. take n l) (omega arith)
  take-split (suc k) zero l h = absurd (omega arith)
  take-split (suc k) (suc r) [] h = sym (take-nil (suc r - suc k))
  take-split (suc k) (suc r) (x ∷ l) h =
      ap (λ m. x ∷ m)
        (take-split k r l (omega arith) ∙ ap (λ n. take k l ++ take n (drop k l)) (omega arith))

  pub length-take : (k : ℕ) (l : List (Change Op)) → k ≤ length l → length (take k l) ≡ k
  length-take zero l h = refl
  length-take (suc k) [] h = absurd (omega arith)
  length-take (suc k) (x ∷ l) h = omega (arith, length-take k l (omega arith))

  pub take-append : (l m : List (Change Op)) (k : ℕ) → k ≤ length l → take k (l ++ m) ≡ take k l
  take-append l m zero h = refl
  take-append [] m (suc k) h = absurd (omega arith)
  take-append (x ∷ l) m (suc k) h = rw (take-append l m k (omega arith))

module _ {Op : Type 0} {c : DeltaClass Op} {Valid : Delta Op → Type 0}
    (laws : IsDeltaClass c Valid) where
  pub compose_each-append :
      (s : Snapshot Op) (xs ys : List (Change Op))
      → compose_each c s (xs ++ ys) ≡ (compose_each c s xs >>= λ t. compose_each c t ys)
  unfolding compose_each
  compose_each-append s [] ys = refl
  compose_each-append s (x ∷ xs) ys =
      bind_assoc (compose c s x) _ _ _ (λ t. compose_each-append t xs ys)

  -- What composing numbered changes onto a snapshot comes to.
  pub record Composed (s : Snapshot Op) (l : List (Change Op)) : Type 0 where
    pub to : Snapshot Op
    pub runs : compose_each c s l ≡ ok to
    pub document : c.impl_is_document to.contents ≡ true
    pub valid : Valid to.contents
    pub rev : to.rev_num ≡ length l + s.rev_num

  pub composed :
      (s : Snapshot Op) (l : List (Change Op))
      → Valid s.contents
      → AllValid laws l
      → c.impl_is_document s.contents ≡ true
      → Numbered (suc s.rev_num) l
      → Composed s l
  unfolding compose_each
  composed s [] v w h n = record { to = s; runs = refl; document = h; valid = v; rev = omega arith }
  composed s (x ∷ xs) v (y, w) h (m, n) =
      let (r, p, _, q, e, vr) = snapshot-compose laws s x v y h in
      let t =
        composed (record { rev_num = x.rev_num; contents = r }) xs vr w q
          (subst (λ k. Numbered k xs) (ap (λ k. suc k) (sym m)) n) in
      record {
        to = t.to;
        runs = rw e t.runs;
        document = t.document;
        valid = t.valid;
        rev = omega (arith, t.rev, m);
      }
