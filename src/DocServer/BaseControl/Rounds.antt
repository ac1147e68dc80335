-- ===== src/DocServer/BaseControl/Rounds.antt =====
-- About the rounds of `getComposedChanges()` in local-modules/@bayou/doc-server/BaseControl.js.
use bayou.Prelude.{
  ℕ, zero, suc, ◌+◌, ◌-◌, ◌≤◌, ◌≡◌, refl, ap, fun_ext, true, Bool, Bool-cases, inl, inr, arith, leb,
  map,
}
use bayou.Ot.Delta
use bayou.Ot.Delta.{DeltaClass}
use bayou.Ot.Change.{Change}
use bayou.FileStore.BaseFile.{Call, ◌>>=◌}
use bayou.DocServer.BaseControl.{ChangeRange, lift, or_end, compose_rounds}

module _ {Op S : Type 0} (class : DeltaClass Op) (get_change_range : ChangeRange Op S) where
  -- One round, and what is done behind it.
  round :
      Delta.Delta Op
      → ℕ
      → ℕ
      → Bool
      → (Delta.Delta Op → Call S (Delta.Delta Op))
      → Call S (Delta.Delta Op)
  round result i end want_document next = do
    changes ← get_change_range i (or_end (i + 1000) end)
    composed ←
        lift (
          Delta.compose_all class result (map (λ (ch : Change Op). ch.delta) changes) want_document)
    next composed

  -- A round for each revision of the range is enough: a different number of rounds changes nothing.
  rounds_enough :
      (fuel other : ℕ) (result : Delta.Delta Op) (i end : ℕ) (want_document : Bool) (s : S)
      → end - i ≤ fuel
      → end - i ≤ other
      → compose_rounds class get_change_range fuel result i end want_document s
        ≡ compose_rounds class get_change_range other result i end want_document s
  unfolding compose_rounds round
  rounds_enough zero zero result i end want_document s h k = refl
  rounds_enough zero (suc other) result i end want_document s h k =
      let b : leb end i ≡ true = ground (arith, h) in rw b refl
  rounds_enough (suc fuel) zero result i end want_document s h k =
      let b : leb end i ≡ true = ground (arith, k) in rw b refl
  rounds_enough (suc fuel) (suc other) result i end want_document s h k =
      elim (Bool-cases (leb end i)) [
        | inl b ↦ rw b refl
        | inr b ↦ rw b (
            ap (λ next. round result i end want_document next s)
              (fun_ext λ d. fun_ext λ t.
                rounds_enough fuel other d (i + 1000) end want_document t (ground (arith, h, b))
                  (ground (arith, k, b))))
      ]
