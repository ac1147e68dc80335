-- ===== src/PromiseUtil/Mutex/Exclusion.antt =====
-- About who holds the lock of local-modules/@bayou/promise-util/Mutex.js.
use bayou.Prelude.{
  ℕ, ◌≤◌, ◌≡◌, refl, true, none, some, List, [], ◌∷◌, ok, ◌==◌, nat_eq, arith, length, ◌⊎◌, inl,
  inr, subst, Option-cases, Bool-cases,
}
use bayou.PromiseUtil.Mutex.{
  Mutex, unlocked, remove, is_in, lock, resume, unlock, release_first, locks, resumes, Reach, next,
}

-- The only call to go on is the first waiter's, and nothing holds the lock before it does.
abbrev Waking : Mutex → Type 0
Waking m =
    (k : ℕ) × (ws : List ℕ) × (m.released ≡ k ∷ [])
    × (m.waiters ≡ k ∷ ws)
    × (m.locked_by ≡ none)
    × (m.holders ≡ [])

abbrev Held : Mutex → Type 0
Held m = (k : ℕ) × (m.released ≡ []) × (m.locked_by ≡ some k) × (m.holders ≡ k ∷ [])

abbrev Free : Mutex → Type 0
Free m = (m.released ≡ []) × (m.waiters ≡ []) × (m.locked_by ≡ none) × (m.holders ≡ [])

-- Runs in which no `lock()` comes between an unlock and the turn of the waiter that it woke.
pub data Orderly (m : Mutex) : Mutex → Type 0 where
  stays : Orderly m m
  then_locks : {n : Mutex} → Orderly m n → n.released ≡ [] → Orderly m (lock n)
  then_resumes :
      {n : Mutex} → Orderly m n → (key : ℕ) → is_in key n.released ≡ true → Orderly m (resume key n)
  then_unlocks :
      {n o : Mutex}
      → Orderly m n
      → (key : ℕ) → is_in key n.holders ≡ true
      → unlock key n ≡ ok o
      → Orderly m o

abbrev Sound : Mutex → Type 0
Sound m = Free m ⊎ (Held m ⊎ Waking m)

lock-Sound : (m : Mutex) → Sound m → m.released ≡ [] → Sound (lock m)
unfolding lock
lock-Sound m (inl (a, b, c, d)) e = inr (inl (m.next_key, ground arith, ground arith, ground arith))
lock-Sound m (inr (inl (k, a, b, c))) e = inr (inl (k, ground arith, ground arith, ground arith))
lock-Sound m (inr (inr (k, ws, a, b, c, d))) e = absurd (ground arith)

resume-Sound : (key : ℕ) (m : Mutex) → Sound m → is_in key m.released ≡ true → Sound (resume key m)
unfolding resume
resume-Sound key m (inl (a, b, c, d)) e = absurd (ground arith)
resume-Sound key m (inr (inl (k, a, b, c))) e = absurd (ground arith)
resume-Sound key m (inr (inr (k, ws, a, b, c, d))) e =
    inr (inl (key, ground (arith, nat_eq.beq_iff k key), refl, ground arith))

release-Sound :
    (key : ℕ) (m : Mutex)
    → Held m
    → m.locked_by ≡ some key
    → (w : List ℕ) → m.waiters ≡ w
    → Sound (record m {
      locked_by = none;
      released = release_first m.waiters m.released;
      holders = remove key m.holders;
    })
release-Sound key m (k, a, b, c) e [] q =
    inl (ground arith, q, refl, ground (arith, nat_eq.beq_iff k key))
release-Sound key m (k, a, b, c) e (x ∷ w) q =
    inr (inr (x, w, ground arith, q, refl, ground (arith, nat_eq.beq_iff k key)))

unlock_ok :
    (key : ℕ) (m : Mutex) {n : Mutex}
    → unlock key m ≡ ok n
    → (m.locked_by ≡ some key)
      × (record m {
        locked_by = none;
        released = release_first m.waiters m.released;
        holders = remove key m.holders;
      }
          ≡ n)
unfolding unlock
unlock_ok key m {n} e = elim (Option-cases m.locked_by) [
  | inl q ↦ absurd (ground arith)
  | inr (k, q) ↦ elim (Bool-cases (k == key)) [
    | inl p ↦ (ground (arith, nat_eq.beq_iff k key), ground arith)
    | inr p ↦ absurd (ground arith)
  ]
]

unlock-Sound : (key : ℕ) (m : Mutex) {n : Mutex} → Sound m → unlock key m ≡ ok n → Sound n
unfolding unlock
unlock-Sound key m (inl (a, b, c, d)) e = absurd (ground arith)
unlock-Sound key m (inr (inl h)) e =
    let (a, b) = unlock_ok key m e in subst Sound b (release-Sound key m h a m.waiters refl)
unlock-Sound key m (inr (inr (k, ws, a, b, c, d))) e = absurd (ground arith)

Orderly-Sound : {m n : Mutex} → Sound m → Orderly m n → Sound n
Orderly-Sound s stays = s
Orderly-Sound s (then_locks {n} r e) = lock-Sound n (Orderly-Sound s r) e
Orderly-Sound s (then_resumes {n} r key e) = resume-Sound key n (Orderly-Sound s r) e
Orderly-Sound s (then_unlocks {n} {o} r key h e) = unlock-Sound key n (Orderly-Sound s r) e

-- In every run from the unlocked mutex in which no `lock()` call comes between an unlock and the
-- turn of the waiter that it woke, at most one caller holds the lock.
pub one_holder : {m : Mutex} → Orderly unlocked m → length m.holders ≤ 1
one_holder r = ground (arith, Orderly-Sound {m = unlocked} (inl (refl, refl, refl, refl)) r)

-- From every reachable state without a key in `_lockedBy` in which an unlock woke a waiter whose
-- turn has not come, a call of `lock()` and then that turn make both callers holders, and the mutex
-- knows the waiter alone.
pub intruder_holds :
    (key : ℕ) (m : Mutex)
    → Reach unlocked m
    → m.locked_by ≡ none
    → is_in key m.released ≡ true
    → (n : Mutex) × Reach unlocked n
      × (n.holders ≡ key ∷ m.next_key ∷ m.holders)
      × (n.locked_by ≡ some key)
unfolding lock resume
intruder_holds key m r f h =
    (resume key (lock m), next (next r locks) (resumes key (ground arith)), ground arith, refl)
