-- ===== src/Ot/Snapshot.antt =====
-- local-modules/@bayou/ot-common/BaseSnapshot.js, over a delta class. Where the source returns
-- `this` for an unchanged value, the model returns an equal one.
pub mod Chunks
pub mod History
pub mod Diff
use bayou.Prelude.{
  ℕ, zero, suc, ◌≡◌, Bool, true, false, ◌&&◌, Option, none, some, List, [], ◌∷◌, map, Result, ok,
  err, bad_value, ◌>>=◌, take, drop, ◌==◌, nat_eq, if◌then◌else◌,
}
use bayou.Ot.Delta
use bayou.Ot.Delta.{DeltaClass, is_empty}
use bayou.Ot.Change.{Change, change}

pub record Snapshot (Op : Type 0) : Type 0 where
  pub rev_num : ℕ
  pub contents : Delta.Delta Op

-- `EMPTY`
abbrev pub empty : {Op : Type 0} → Snapshot Op
empty = record { rev_num = 0; contents = [] }

-- The revision number of the last of `x ∷ xs`.
abbrev pub last_rev_num : {Op : Type 0} → Change Op → List (Change Op) → ℕ
last_rev_num x [] = x.rev_num
last_rev_num x (y ∷ ys) = last_rev_num y ys

module _ {Op : Type 0} (c : DeltaClass Op) where
  -- The constructor: the contents must be a document.
  unfoldable pub make : ℕ → Delta.Delta Op → Result (Snapshot Op)
  make rev_num contents =
      if c.impl_is_document contents
      then ok (record { rev_num = rev_num; contents = contents })
      else err bad_value

  unfoldable pub with_rev_num : Snapshot Op → ℕ → Result (Snapshot Op)
  unfolding make
  with_rev_num s rev_num = if rev_num == s.rev_num then ok s else make rev_num s.contents

  unfoldable pub with_contents : Snapshot Op → Delta.Delta Op → Result (Snapshot Op)
  unfolding make
  with_contents s contents = make s.rev_num contents

  unfoldable pub compose : Snapshot Op → Change Op → Result (Snapshot Op)
  unfolding with_rev_num make
  compose s ch =
      if is_empty ch.delta
      then with_rev_num s ch.rev_num
      else do contents ← Delta.compose c s.contents ch.delta true; make ch.rev_num contents

  -- The loop of `composeAll()`, `per` changes to a round; `none` says that the fuel ran out.
  unfoldable pub compose_chunks :
      ℕ → ℕ → Delta.Delta Op → List (Change Op) → Option (Result (Delta.Delta Op))
  compose_chunks _ per contents [] = some (ok contents)
  compose_chunks zero per contents (x ∷ xs) = none
  compose_chunks (suc fuel) per contents (x ∷ xs) =
      elim (Delta.compose_all c contents (map (λ ch. ch.delta) (take per (x ∷ xs))) true) [
        | ok next ↦ compose_chunks fuel per next (drop per (x ∷ xs))
        | err e ↦ some (err e)
      ]

  unfoldable pub compose_all :
      ℕ → ℕ → Snapshot Op → List (Change Op) → Option (Result (Snapshot Op))
  unfolding make
  compose_all fuel per s [] = some (ok s)
  compose_all fuel per s (x ∷ xs) = elim (compose_chunks fuel per s.contents (x ∷ xs)) [
    | none ↦ none
    | some r ↦ some (r >>= λ contents. make (last_rev_num x xs) contents)
  ]

  -- `diff()`, over the class's `_impl_diffAsDelta()`.
  unfoldable pub diff :
      (Snapshot Op → Snapshot Op → Result (Delta.Delta Op))
      → Snapshot Op
      → Snapshot Op
      → Result (Change Op)
  diff impl_diff_as_delta s newer = do
    delta ← if Delta.equals c s.contents newer.contents then ok [] else impl_diff_as_delta s newer
    ok (change newer.rev_num delta)

  unfoldable pub equals : Snapshot Op → Snapshot Op → Bool
  equals s t = (s.rev_num == t.rev_num) && Delta.equals c s.contents t.contents
