-- ===== src/Ot/Snapshot/Diff.antt =====
-- About `diff()` of local-modules/@bayou/ot-common/BaseSnapshot.js.
use bayou.Prelude.{◌≡◌, true, false, Result, ok, []}
use bayou.Ot.Delta
use bayou.Ot.Delta.{DeltaClass}
use bayou.Ot.Change.{change}
use bayou.Ot.Snapshot.{Snapshot, diff}

module _ {Op : Type 0} (c : DeltaClass Op)
    (impl : Snapshot Op → Snapshot Op → Result (Delta.Delta Op)) (s t : Snapshot Op) where
  pub diff_equal :
      Delta.equals c s.contents t.contents ≡ true → diff c impl s t ≡ ok (change t.rev_num [])
  unfolding diff
  diff_equal e = rw e

  pub diff_unequal :
      {d : Delta.Delta Op}
      → Delta.equals c s.contents t.contents ≡ false
      → impl s t ≡ ok d
      → diff c impl s t ≡ ok (change t.rev_num d)
  unfolding diff
  diff_unequal e f = rw (e, f)
