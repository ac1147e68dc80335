-- ===== src/PromiseUtil/Condition/Laws.antt =====
-- About the promises of local-modules/@bayou/promise-util/Condition.js.
use bayou.Prelude.{
  ℕ, ◌<◌, ◌≡◌, ◌≢◌, refl, Bool, true, false, not, Option, none, some, ◌∷◌, arith, ◌⊎◌, inl, inr,
  Option-cases, Bool-cases, ap,
}
use bayou.PromiseUtil.Condition.{
  Condition, make, became, set_value, on_off, Wait, now, later, when_x,
}

-- A promise that is waited for is older than the next one.
abbrev pub IsOld : Option ℕ → ℕ → Type 0
IsOld none n = Unit
IsOld (some p) n = p < n

-- No promise is waited for that has happened, and each is older than the next one.
abbrev pub IsValid : Condition → Type 0
IsValid c = (became c.value c ≡ none) × IsOld c.became_true c.next × IsOld c.became_false c.next

make-IsValid : (b : Bool) → IsValid (make b)
make-IsValid true = (refl, tt, tt)
make-IsValid false = (refl, tt, tt)

pub set_value-IsValid : (b : Bool) (c : Condition) → IsValid c → IsValid (set_value b c)
unfolding set_value
set_value-IsValid true c (s, t, f) = ground arith
set_value-IsValid false c (s, t, f) = ground arith

pub when_x-IsValid : (b : Bool) (c : Condition) → IsValid c → IsValid (when_x b c).0
unfolding when_x
when_x-IsValid true c (s, t, f) = ground arith
when_x-IsValid false c (s, t, f) = ground arith

-- A new condition is valid, and a valid one stays valid under each of its operations: the setter of
-- the value, `onOff()`, and waiting for a value.
pub operations-IsValid :
    (b : Bool) (c : Condition)
    → IsValid c
    → IsValid (make b) × IsValid (set_value b c) × IsValid (on_off c) × IsValid (when_x b c).0
unfolding on_off
operations-IsValid b c v = (
  make-IsValid b,
  set_value-IsValid b c v,
  set_value-IsValid false (set_value true c) (set_value-IsValid true c v),
  when_x-IsValid b c v,
)

-- The promise that who waits for a value gets.
abbrev promise : Bool → Condition → ℕ
promise b c = elim (became b c) [ some p ↦ p | none ↦ c.next ]

pub set_value-when_x :
    (b : Bool) (c : Condition)
    → IsValid c
    → ((c.value ≡ b) × (when_x b c ≡ (c, now)) × (set_value b c ≡ c))
      ⊎ ((p : ℕ) × (c.value ≡ not b)
          × ((when_x b c).1 ≡ later p)
          × ((when_x b (when_x b c).0).1 ≡ later p)
          × ((when_x b c).0.resolved ≡ c.resolved)
          × ((set_value (not b) (when_x b c).0).resolved ≡ c.resolved)
          × ((set_value b (when_x b c).0).resolved ≡ p ∷ c.resolved))
unfolding set_value when_x
set_value-when_x true c v = elim (Bool-cases c.value) [
  | inl q ↦ inl (q, rw q refl, rw q refl)
  | inr q ↦ inr (
    promise true c,
    q,
    ground (arith, q),
    ground (arith, q),
    ground (arith, q),
    ground (arith, q),
    ground (arith, q),
  )
]
set_value-when_x false c v = elim (Bool-cases c.value) [
  | inr q ↦ inl (q, rw q refl, rw q refl)
  | inl q ↦ inr (
    promise false c,
    q,
    ground (arith, q),
    ground (arith, q),
    ground (arith, q),
    ground (arith, q),
    ground (arith, q),
  )
]

pub set_value-value : (b : Bool) (c : Condition) → (set_value b c).value ≡ b
unfolding set_value
set_value-value true c = ground arith
set_value-value false c = ground arith

pub when_x-value : (b : Bool) (c : Condition) → (when_x b c).0.value ≡ c.value
unfolding when_x
when_x-value true c = ground arith
when_x-value false c = ground arith

waited : (b : Bool) (c : Condition) → c.value ≡ not b → (when_x b c).1 ≢ now
unfolding when_x
waited true c e = ground arith
waited false c e = ground arith

-- What waits for the value that a valid condition lacks is given a promise, which setting the value
-- resolves.
pub wait_later :
    (b : Bool) (c : Condition)
    → IsValid c
    → c.value ≡ not b
    → (p : ℕ) × ((when_x b c).1 ≡ later p)
      × ((set_value b (when_x b c).0).resolved ≡ p ∷ c.resolved)
wait_later b c v e = elim (set_value-when_x b c v) [
  | inl (_, n, _) ↦ absurd (waited b c e (ap (λ (x : Condition × Wait). x.1) n))
  | inr (p, _, x, _, _, _, y) ↦ (p, x, y)
]

pub when_x-resolved : (b : Bool) (c : Condition) → (when_x b c).0.resolved ≡ c.resolved
unfolding when_x
when_x-resolved true c = ground arith
when_x-resolved false c = ground arith

-- Turning a valid condition on and off resolves the promise that waits for it.
pub on_off-when_x :
    (c : Condition)
    → IsValid c
    → c.value ≡ false
    → (p : ℕ) × ((when_x true c).1 ≡ later p)
      × ((on_off (when_x true c).0).resolved ≡ p ∷ c.resolved)
unfolding on_off set_value when_x
on_off-when_x c v e = elim (Option-cases c.became_true) [
  | inl q ↦ (c.next, ground arith, ground arith)
  | inr (p, q) ↦ (p, ground arith, ground arith)
]
