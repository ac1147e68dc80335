-- ===== src/DocServer/Part/Background.antt =====
-- About the snapshot that is stored behind an append, in
-- local-modules/@bayou/doc-server/BaseControl.js.
use bayou.Prelude.{
  ℕ, ◌-◌, ◌%◌, ◌≤◌, ◌≡◌, refl, true, Bool-cases, inl, inr, Option, none, some, List, Eq, ◌==◌,
  nat_eq, Result, ok, err, leb, if◌then◌else◌, arith,
}
use bayou.Ot.Change.{Change}
use bayou.Ot.Snapshot.{Snapshot}
use bayou.FileStore.BaseFile.{Call}
use bayou.DocServer.Part.{Part}
use bayou.DocServer.Part.Calls.{current_rev_num, get_snapshot, maybe_write_stored_snapshot}
use bayou.DocServer.Part.Log.{IsPart, Holds}
use bayou.FileStore.FileLaws.{FileLaws}
use bayou.DocServer.Part.Stored.{
  current_rev_num-Holds, write_stored_snapshot-Holds, later, lost_before,
}

module _ {Op B S : Type 0} (part : Part Op B S) (p : IsPart part) ⦃e : Eq B⦄ (size : B → ℕ)
    (laws : FileLaws part.hash size part.file)
    (impl_get_snapshot : ℕ → Call S (Option (Snapshot Op))) where
  -- `_impl_getSnapshot()` gives a snapshot of the revision that is asked for, or none, or throws, and
  -- leaves the part as it is.
  abbrev pub Reads : Type 0
  Reads =
      (s : S) (log : List (Change Op)) (current oldest r : ℕ)
      → Holds part size laws s log current oldest
      → r ≤ current
      → (t : S) × (found : Result (Option (Snapshot Op))) × Holds part size laws t log current
          oldest
        × ((u : Snapshot Op) → found ≡ ok (some u) → u.rev_num ≡ r)
        × (impl_get_snapshot r s ≡ (found, t))

  -- The changes that may go by storing a snapshot are those more than a thousand revisions back.
  unfoldable pub spared : ℕ → ℕ → ℕ
  spared current oldest = if part.ephemeral then later oldest (current - 1000) else oldest

  pub oldest_le : (current oldest : ℕ) → oldest ≤ spared current oldest
  unfolding spared
  oldest_le current oldest = elim (Bool-cases part.ephemeral) [
    | inl q ↦ rw q (ground arith)
    | inr q ↦ rw q (omega arith)
  ]

  later-spared :
      (v : Snapshot Op) (current oldest : ℕ)
      → v.rev_num ≤ current
      → later oldest (lost_before part p v) ≤ spared current oldest
  unfolding spared
  later-spared v current oldest b = elim (Bool-cases part.ephemeral) [
    | inl q ↦ rw q (ground (arith, b))
    | inr q ↦ rw q (ground arith)
  ]

  write_found :
      (found : Result (Option (Snapshot Op))) (s t u : S) (log : List (Change Op))
      (current oldest r : ℕ)
      → r ≤ current
      → (r % 1000 == 0) ≡ true
      → current_rev_num part s ≡ (ok current, t)
      → impl_get_snapshot r t ≡ (found, u)
      → Holds part size laws u log current oldest
      → ((v : Snapshot Op) → found ≡ ok (some v) → v.rev_num ≡ r)
      → (w : S) × (o : ℕ) × (o ≤ spared current oldest)
        × Holds part size laws w log current o
        × (maybe_write_stored_snapshot part impl_get_snapshot r s ≡ (ok tt, w))
  unfolding maybe_write_stored_snapshot get_snapshot
  write_found (err f) s t u log current oldest r b m n g h k =
      let z : leb r current ≡ true = ground (arith, b) in
      (u, oldest, oldest_le current oldest, h, rw (m, n, z, g) refl)
  write_found (ok none) s t u log current oldest r b m n g h k =
      let z : leb r current ≡ true = ground (arith, b) in
      (u, oldest, oldest_le current oldest, h, rw (m, n, z, g) refl)
  write_found (ok (some v)) s t u log current oldest r b m n g h k =
      let z : leb r current ≡ true = ground (arith, b) in
      let (w, held, _, wrote) =
        write_stored_snapshot-Holds part p size laws v u log current oldest h
          (omega (arith, b, k v refl)) in
      (
        w,
        later oldest (lost_before part p v),
        later-spared v current oldest (omega (arith, b, k v refl)),
        held,
        rw (m, n, z, g, wrote) refl,
      )

  -- Storing a snapshot behind an append leaves the changes, but for old ones of an ephemeral part.
  pub maybe_write-Holds :
      Reads
      → (s : S) (log : List (Change Op)) (current oldest r : ℕ)
      → Holds part size laws s log current oldest
      → (t : S) × (o : ℕ) × (o ≤ spared current oldest)
        × Holds part size laws t log current o
        × (maybe_write_stored_snapshot part impl_get_snapshot r s ≡ (ok tt, t))
  unfolding maybe_write_stored_snapshot get_snapshot
  maybe_write-Holds reads s log current oldest r h = elim (Bool-cases (r % 1000 == 0)) [
    | inr m ↦ (s, oldest, oldest_le current oldest, h, rw m refl)
    | inl m ↦
        let (t, shown, n) = current_rev_num-Holds part p size laws s log current oldest h in
        let held : Holds part size laws t log current oldest = record {
          view = h.view;
          shows = shown;
          is_log = h.is_log;
        } in
        elim (Bool-cases (leb r current)) [
          | inr b ↦ (t, oldest, oldest_le current oldest, held, rw (m, n, b) refl)
          | inl b ↦
              let c : r ≤ current = ground (arith, b) in
              let (u, found, held, at, g) = reads t log current oldest r held c in
              write_found found s t u log current oldest r c m n g held at
        ]
  ]
