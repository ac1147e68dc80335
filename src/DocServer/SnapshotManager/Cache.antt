-- ===== src/DocServer/SnapshotManager/Cache.antt =====
-- About what local-modules/@bayou/doc-server/SnapshotManager.js caches and gives.
use bayou.Prelude.{
  ℕ, zero, suc, ◌+◌, ◌-◌, ◌≤◌, ◌<◌, ◌≡◌, refl, sym, ◌∙◌, true, false, inl, inr, some, Option-cases,
  List, [], take, drop, length, Eq, ◌==◌, nat_eq, Result, ok, leb, ltb, arith,
}
use bayou.JsMap
use bayou.JsMap.{JsMap, get-set}
use bayou.Ot.Delta
use bayou.Ot.Delta.{DeltaClass}
use bayou.Ot.Delta.Laws.{IsDeltaClass}
use bayou.Ot.Change.{Change}
use bayou.Ot.Snapshot
use bayou.Ot.Snapshot.{Snapshot}
use bayou.Ot.Snapshot.Chunks.{deltas, AllValid, take-AllValid, compose_all_total}
use bayou.FileStore.FileLaws.{FileLaws}
use bayou.FileStore.Op.{FileOp}
use bayou.DocServer.BaseControl.Composition.{get_composed_changes-eq, slice, prefix_split}
use bayou.DocServer.Part.{Part}
use bayou.DocServer.Part.Log.{IsPart, IsLog}
use bayou.DocServer.Part.Ranges.{get_change_range-eq}
use bayou.DocServer.Part.Stored.{later}
use bayou.DocServer.SnapshotManager.{newest, make_snapshot, whole_range}

-- With something at revision 0, the loop finds the newest at or before a revision.
pub newest-some :
    {V : Type 0} (m : JsMap ℕ V) (first : V) (r : ℕ)
    → JsMap.get 0 m ≡ some first
    → (b : ℕ) × (v : V) × (b ≤ r) × (newest m r ≡ some (b, v)) × (JsMap.get b m ≡ some v)
unfolding newest
newest-some m first zero h = (0, first, omega arith, rw (newest, h) refl, h)
newest-some m first (suc r) h = elim (Option-cases (JsMap.get (suc r) m)) [
  | inr (v, q) ↦ (suc r, v, omega arith, rw (newest, q) refl, q)
  | inl q ↦
      let (b, v, k, e, f) = newest-some m first r h in (b, v, omega (arith, k), rw (newest, q) e, f)
]

module _ {Op B S : Type 0} {c : DeltaClass Op} {Valid : Delta.Delta Op → Type 0}
    (laws : IsDeltaClass c Valid) (empty_document : c.impl_is_document [] ≡ true)
    (part : Part Op B S) (p : IsPart part) ⦃e : Eq B⦄ (size : B → ℕ)
    (file : FileLaws part.hash size part.file) (log : List (Change Op))
    (valid : AllValid laws log) where
  -- The snapshot of a revision is the composition of all changes up to it.
  pub record IsAt (r : ℕ) (u : Snapshot Op) : Type 0 where
    pub rev : u.rev_num ≡ r
    pub composes : Delta.compose_all c [] (deltas (take (r + 1) log)) true ≡ ok u.contents

  at-valid :
      (r : ℕ) (u : Snapshot Op)
      → IsAt r u
      → (c.impl_is_document u.contents ≡ true) × Valid u.contents
  at-valid r u a =
      let (d, q, document, v) =
        compose_all_total laws [] (deltas (take (r + 1) log)) laws.empty_valid
          (take-AllValid laws (r + 1) log valid) empty_document in
      let same : d ≡ u.contents = same_ok d u.contents (sym q ∙ a.composes) in
      (rw same at document, rw same at v)
    where
      same_ok : (x y : Delta.Delta Op) → Path (Result (Delta.Delta Op)) (ok x) (ok y) → x ≡ y
      same_ok x y h = cc

  module _ (v : Snapshot (FileOp B)) (current : ℕ) (l : IsLog part v log current 0) where
    -- Reading a range of the changes.
    pub reads_range :
        (s : S) (i j : ℕ)
        → file.Shows s v
        → i < j
        → j ≤ length log
        → j ≤ i + 1000
        → (t : S) × file.Shows t v
          × (whole_range c part i j s ≡ (ok (take (j - i) (drop i log)), t))
    reads_range s i j shows a b d =
        let (t, shown, ran) =
          get_change_range-eq part p size file s v log current 0 i j false shows l in
        let x : leb i j ≡ true = ground (arith, a) in
        let y : leb j (suc current) ≡ true = ground (arith, b, l.count) in
        let z : (i == j) ≡ false = ground (arith, a) in
        let w : ltb 1000 (j - i) ≡ false = ground (arith, d) in
        let m : leb 0 i ≡ true = ground arith in
        let n : later i 0 ≡ i = ground arith in (t, shown, ran ∙ rw (x, y, z, w, m, n) refl)

    pub make_snapshot-eq :
        (s : S) (b r : ℕ) (u : Snapshot Op)
        → file.Shows s v
        → IsAt b u
        → b < r
        → r ≤ current
        → (t : S) × (w : Snapshot Op) × file.Shows t v
          × IsAt r w
          × (make_snapshot c part r (ok u) s ≡ (ok w, t))
    unfolding make_snapshot Snapshot.make
    make_snapshot-eq s b r u shows a h k =
        let (document, w) = at-valid b u a in
        let (t, shown, ran) =
          get_composed_changes-eq laws log valid (whole_range c part) (λ x. file.Shows x v)
            reads_range u.contents (u.rev_num + 1) (r + 1) s w document (omega (arith, h, a.rev))
            (omega (arith, k, l.count)) shows in
        let (d, q, made, x) =
          compose_all_total laws [] (deltas (take (r + 1) log)) laws.empty_valid
            (take-AllValid laws (r + 1) log valid) empty_document in
        let n : u.rev_num + 1 ≡ b + 1 = omega (arith, a.rev) in
        let joined : Delta.compose_all c u.contents
              (deltas (slice laws log valid (u.rev_num + 1) (r + 1))) true
            ≡ ok d =
          rw n (
            sym (
              prefix_split laws log valid u.contents (b + 1) (r + 1) empty_document
                (omega (arith, h)) a.composes)
            ∙ q) in
        (
          t,
          record { rev_num = r; contents = d },
          shown,
          record { rev = refl; composes = q },
          rw (ran, joined, made) refl,
        )
