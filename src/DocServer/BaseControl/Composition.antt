-- ===== src/DocServer/BaseControl/Composition.antt =====
-- About `getComposedChanges()` in local-modules/@bayou/doc-server/BaseControl.js, against composing
-- all changes of the range at once.
use bayou.Prelude.{
  ℕ, zero, suc, ◌+◌, ◌-◌, ◌≤◌, ◌<◌, ◌≡◌, refl, sym, ◌∙◌, ap, true, false, Bool-cases, inl, inr,
  arith, leb, List, [], Result, ok, take, drop, length, take-take, drop-take, drop-drop, ◌==◌,
  nat_eq,
}
use bayou.Ot.Delta
use bayou.Ot.Delta.{DeltaClass}
use bayou.Ot.Delta.Laws.{IsDeltaClass}
use bayou.Ot.Change.{Change}
use bayou.Ot.Snapshot.Chunks.{
  deltas, AllValid, take-AllValid, drop-AllValid, compose_all_total, compose_all-split,
}
use bayou.DocServer.BaseControl.{ChangeRange, or_end, compose_rounds, get_composed_changes}

module _ {Op : Type 0} {c : DeltaClass Op} {Valid : Delta.Delta Op → Type 0}
    (laws : IsDeltaClass c Valid) (log : List (Change Op)) (valid : AllValid laws log) where
  -- The changes from a revision to another.
  abbrev pub slice : ℕ → ℕ → List (Change Op)
  slice i end = take (end - i) (drop i log)

  slice-AllValid : (i end : ℕ) → AllValid laws (slice i end)
  slice-AllValid i end = take-AllValid laws (end - i) (drop i log) (drop-AllValid laws i log valid)

  slice_head : (i e end : ℕ) → e ≤ end → take (e - i) (slice i end) ≡ slice i e
  slice_head i e end h = take-take (e - i) (end - i) (drop i log) (omega (arith, h))

  slice_tail : (i e end : ℕ) → i ≤ e → e ≤ end → drop (e - i) (slice i end) ≡ slice e end
  slice_tail i e end h k =
      let m : end - i - (e - i) ≡ end - e = omega (arith, h, k) in
      let n : i + (e - i) ≡ e = omega (arith, h) in
      drop-take (e - i) (end - i) (drop i log) ∙ rw (drop-drop (e - i) i log, m, n) refl

  -- Composing a range is composing its start and then its end.
  pub slice_split :
      (d r : Delta.Delta Op) (i e end : ℕ)
      → Valid d
      → c.impl_is_document d ≡ true
      → i ≤ e
      → e ≤ end
      → Delta.compose_all c d (deltas (slice i e)) true ≡ ok r
      → Delta.compose_all c d (deltas (slice i end)) true
        ≡ Delta.compose_all c r (deltas (slice e end)) true
  slice_split d r i e end v h a b q =
      compose_all-split laws (e - i) d (slice i end) v (slice-AllValid i end) h
      ∙ rw (slice_head i e end b, slice_tail i e end a b, q) refl

  -- A prefix of the changes, and what is behind it.
  pub prefix_split :
      (r : Delta.Delta Op) (i j : ℕ)
      → c.impl_is_document [] ≡ true
      → i ≤ j
      → Delta.compose_all c [] (deltas (take i log)) true ≡ ok r
      → Delta.compose_all c [] (deltas (take j log)) true
        ≡ Delta.compose_all c r (deltas (slice i j)) true
  prefix_split r i j h b q =
      let m : i - 0 ≡ i = omega arith in
      let n : j - 0 ≡ j = omega arith in
      rw n at (slice_split [] r 0 i j laws.empty_valid h (omega arith) b (rw m q))

  module _ {S : Type 0} (get_change_range : ChangeRange Op S) (P : S → Type 0)
      (range : (s : S) (i j : ℕ)
        → P s
        → i < j
        → j ≤ length log
        → j ≤ i + 1000
        → (t : S) × P t × (get_change_range i j s ≡ (ok (take (j - i) (drop i log)), t))) where
    -- Behind the end of a round the range is what is left, which is nothing behind the last.
    slice_after : (i end : ℕ) → slice (or_end (i + 1000) end) end ≡ slice (i + 1000) end
    slice_after i end = elim (Bool-cases (leb (i + 1000) end)) [
      | inl q ↦ rw q refl
      | inr q ↦
          let m : end - end ≡ 0 = omega arith in
          let n : end - (i + 1000) ≡ 0 = ground (arith, q) in rw (q, m, n) refl
    ]

    one_round :
        (fuel : ℕ) (d r : Delta.Delta Op) (i end : ℕ) (s t u : S) (y : Result (Delta.Delta Op))
        → leb end i ≡ false
        → get_change_range i (or_end (i + 1000) end) s ≡ (ok (slice i (or_end (i + 1000) end)), t)
        → Delta.compose_all c d (deltas (slice i (or_end (i + 1000) end))) true ≡ ok r
        → compose_rounds c get_change_range fuel r (i + 1000) end true t ≡ (y, u)
        → compose_rounds c get_change_range (suc fuel) d i end true s ≡ (y, u)
    unfolding compose_rounds
    one_round fuel d r i end s t u y z ran composed rest = rw (z, ran, composed) rest

    rounds-eq :
        (fuel : ℕ) (d : Delta.Delta Op) (i end : ℕ) (s : S)
        → Valid d
        → c.impl_is_document d ≡ true
        → end ≤ length log
        → end - i ≤ fuel
        → P s
        → (t : S) × P t
          × (compose_rounds c get_change_range fuel d i end true s
              ≡ (Delta.compose_all c d (deltas (slice i end)) true, t))
    unfolding compose_rounds
    rounds-eq zero d i end s v h b f p =
        let z : leb end i ≡ true = ground (arith, f) in
        let n : end - i ≡ 0 = omega (arith, f) in
        (s, p, rw (z, n) (unfold Delta.compose_all in rw h refl))
    rounds-eq (suc fuel) d i end s v h b f p = elim (Bool-cases (leb end i)) [
      | inl z ↦
          let n : end - i ≡ 0 = ground (arith, z) in
          (s, p, rw (z, n) (unfold Delta.compose_all in rw h refl))
      | inr z ↦
          let e = or_end (i + 1000) end in
          let k : i < e = ground (arith, z) in
          let m : e ≤ end = ground (arith, z) in
          let (t, q, ran) = range s i e p k (omega (arith, m, b)) (ground (arith, z)) in
          let (r, composed, document, w) =
            compose_all_total laws d (deltas (slice i e)) v (slice-AllValid i e) h in
          let (u, o, rest) = rounds-eq fuel r (i + 1000) end t w document b (ground (arith, f)) q in
          (
            u,
            o,
            one_round fuel d r i end s t u
                  (Delta.compose_all c r (deltas (slice (i + 1000) end)) true) z ran composed rest
                ∙ ap (λ y. (y, u))
                    (ap (λ l. Delta.compose_all c r (deltas l) true) (sym (slice_after i end))
                      ∙ sym (slice_split d r i e end v h (omega (arith, k)) m composed)),
          )
    ]

    -- For a class that meets the contract, and reads of at most a thousand changes that give those
    -- of a log of valid changes, composing a range that is not empty onto a valid document, in
    -- rounds of a thousand, gives what composing all its changes at once gives.
    pub get_composed_changes-eq :
        (d : Delta.Delta Op) (i end : ℕ) (s : S)
        → Valid d
        → c.impl_is_document d ≡ true
        → i < end
        → end ≤ length log
        → P s
        → (t : S) × P t
          × (get_composed_changes c get_change_range d i end true s
              ≡ (Delta.compose_all c d (deltas (slice i end)) true, t))
    unfolding get_composed_changes
    get_composed_changes-eq d i end s v h b k p =
        let z : (i == end) ≡ false = ground (arith, b) in
        let (t, q, e) = rounds-eq (end - i) d i end s v h k (omega arith) p in (t, q, rw z e)
