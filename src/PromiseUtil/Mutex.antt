-- ===== src/PromiseUtil/Mutex.antt =====
-- local-modules/@bayou/promise-util/Mutex.js, as steps of an event loop. What runs between two
-- `await`s is one step. A key is the number of its `lock()` call, and a waiter's promise is
-- resolved when its key is among the released ones.
pub mod Exclusion
use bayou.Prelude.{
  ℕ, ◌+◌, ◌≡◌, Bool, true, false, Option, none, some, List, [], ◌∷◌, ◌++◌, Result, ok, err, bad_use,
  ◌==◌, nat_eq, if◌then◌else◌,
}

pub record Mutex : Type 0 where
  pub locked_by : Option ℕ
  pub waiters : List ℕ
  -- The keys whose `release()` was called and whose `lock()` has not gone on since.
  pub released : List ℕ
  -- The keys whose `lock()` has returned, and whose unlock function has not since been called
  -- with success: the callers that believe to hold the lock.
  pub holders : List ℕ
  pub next_key : ℕ

abbrev pub unlocked : Mutex
unlocked = record { locked_by = none; waiters = []; released = []; holders = []; next_key = 0 }

abbrev pub remove : ℕ → List ℕ → List ℕ
remove k [] = []
remove k (j ∷ l) = if j == k then l else j ∷ remove k l

abbrev pub is_in : ℕ → List ℕ → Bool
is_in k [] = false
is_in k (j ∷ l) = if j == k then true else is_in k l

-- `_waiters.shift()`
abbrev pub shift : List ℕ → List ℕ
shift [] = []
shift (_ ∷ l) = l

-- `lock()` up to its `await`, or to its end when nothing holds the lock.
unfoldable pub lock : Mutex → Mutex
lock m = elim m.locked_by [
  | some _ ↦ record m { waiters = m.waiters ++ m.next_key ∷ []; next_key = m.next_key + 1 }
  | none ↦ record m {
    locked_by = some m.next_key;
    holders = m.next_key ∷ m.holders;
    next_key = m.next_key + 1;
  }
]

-- What follows the `await` in `lock()`, for a waiter whose promise was resolved.
unfoldable pub resume : ℕ → Mutex → Mutex
resume key m = record m {
  waiters = shift m.waiters;
  locked_by = some key;
  released = remove key m.released;
  holders = key ∷ m.holders;
}

abbrev pub release_first : List ℕ → List ℕ → List ℕ
release_first [] released = released
release_first (w ∷ _) released = released ++ w ∷ []

-- The unlock function that `lock()` returned for `key`.
unfoldable pub unlock : ℕ → Mutex → Result Mutex
unlock key m = elim m.locked_by [
  | none ↦ err bad_use
  | some k ↦
      if k == key
      then ok (record m {
        locked_by = none;
        released = release_first m.waiters m.released;
        holders = remove key m.holders;
      })
      else err bad_use
]

-- A turn of the event loop.
pub data Step (m : Mutex) : Mutex → Type 0 where
  locks : Step m (lock m)
  resumes : (key : ℕ) → is_in key m.released ≡ true → Step m (resume key m)
  unlocks : (key : ℕ) {n : Mutex} → is_in key m.holders ≡ true → unlock key m ≡ ok n → Step m n

-- What the event loop can lead to.
pub data Reach (m : Mutex) : Mutex → Type 0 where
  here : Reach m m
  next : {n o : Mutex} → Reach m n → Step n o → Reach m o
