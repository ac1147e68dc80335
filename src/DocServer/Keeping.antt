-- ===== src/DocServer/Keeping.antt =====
-- Calls that keep what holds of their state, as for the reads of
-- local-modules/@bayou/doc-server/BaseControl.js.
use bayou.Prelude.{
  ℕ, zero, suc, ◌+◌, ◌-◌, Bool, true, false, ◌==◌, nat_eq, Result, ok, err, Failure, leb,
  if◌then◌else◌,
}
use bayou.Ot.Delta
use bayou.Ot.Delta.{DeltaClass}
use bayou.FileStore.BaseFile.{Call, continue, ◌>>=◌, check_that}
use bayou.DocServer.BaseControl.{
  ChangeRange, lift, compose_rounds, get_composed_changes, or_end, max_change_reads_per_iteration,
}

-- A call that keeps what holds of its state.
pub record Keeps {S A : Type 0} (P : S → Type 0) (call : Call S A) : Type 0 where
  pub at : (s : S) → P s → P (call s).1

module _ {S : Type 0} (P : S → Type 0) where
  pub continue-Keeps :
      {A B : Type 0} (r : Result A × S) (next : A → Call S B)
      → P r.1
      → ((a : A) → Keeps P (next a))
      → P (continue r next).1
  continue-Keeps (ok a, t) next h k = (k a).at t h
  continue-Keeps (err f, t) next h k = h

  pub then-Keeps :
      {A B : Type 0} (call : Call S A) (next : A → Call S B)
      → Keeps P call
      → ((a : A) → Keeps P (next a))
      → Keeps P (call >>= next)
  then-Keeps call next c k = record { at = λ s h. continue-Keeps (call s) next (c.at s h) k }

  pub if-Keeps :
      {A : Type 0} (b : Bool) (x y : Call S A)
      → Keeps P x
      → Keeps P y
      → Keeps P (if b then x else y)
  if-Keeps true x y h g = h
  if-Keeps false x y h g = g

  -- A call that leaves the state.
  pub lift-Keeps : {A : Type 0} (r : Result A) → Keeps P (lift r)
  lift-Keeps r = record { at = λ s h. h }

  pub check_that-Keeps : (b : Bool) (f : Failure) → Keeps P (check_that b f)
  check_that-Keeps true f = record { at = λ s h. h }
  check_that-Keeps false f = record { at = λ s h. h }

  rounds-Keeps :
      {Op : Type 0} (class : DeltaClass Op) (range : ChangeRange Op S)
      → ((i j : ℕ) → Keeps P (range i j))
      → (fuel : ℕ) (result : Delta.Delta Op) (i end : ℕ) (want : Bool)
      → Keeps P (compose_rounds class range fuel result i end want)
  unfolding compose_rounds
  rounds-Keeps class range k zero result i end want =
      if-Keeps (leb end i) _ _ (lift-Keeps _) (lift-Keeps _)
  rounds-Keeps class range k (suc fuel) result i end want =
      if-Keeps (leb end i) _ _ (lift-Keeps _) (
        then-Keeps _ _ (k i (or_end (i + max_change_reads_per_iteration) end)) λ changes.
          then-Keeps _ _ (lift-Keeps _) λ composed.
            rounds-Keeps class range k fuel composed (i + max_change_reads_per_iteration) end want)

  pub composed-Keeps :
      {Op : Type 0} (class : DeltaClass Op) (range : ChangeRange Op S)
      → ((i j : ℕ) → Keeps P (range i j))
      → (base : Delta.Delta Op) (start end : ℕ) (want : Bool)
      → Keeps P (get_composed_changes class range base start end want)
  unfolding get_composed_changes
  composed-Keeps class range k base start end want =
      if-Keeps (start == end) _ _
        (then-Keeps _ _ (check_that-Keeps _ _)
          λ _. then-Keeps _ _ (k start start) λ _. lift-Keeps _)
        (rounds-Keeps class range k (end - start) base start end want)
