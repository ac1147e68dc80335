-- ===== src/DocServer/Part/Race.antt =====
-- About appending a change to a file that others append to, in
-- local-modules/@bayou/doc-server/BaseControl.js.
use bayou.Prelude.{
  ℕ, suc, ◌+◌, ◌≤◌, ◌≡◌, refl, sym, ◌∙◌, ap, subst, Bool, true, false, not, ◌&&◌, Bool-cases, inl,
  inr, Option, none, some, List, [], ◌∷◌, ◌++◌, Eq, ◌==◌, nat_eq, ok, err, bad_value, if◌then◌else◌,
  arith, beq_self,
}
use bayou.Ot.Delta.{is_empty}
use bayou.Ot.Change.{Change, change}
use bayou.Ot.Snapshot.{Snapshot}
use bayou.FileStore.BaseFile
use bayou.FileStore.BaseFile.{Call}
use bayou.FileStore.Op.{FileOp}
use bayou.Prelude.Int.{pos}
use bayou.DocServer.Part.{Part, number_value}
use bayou.DocServer.Part.Calls.{
  append_checks, append_seen, append_change, lost, maybe_write_stored_snapshot,
}
use bayou.DocServer.Part.Log.{IsPart, IsLog, Holds}
use bayou.FileStore.FileLaws.{FileLaws}
use bayou.DocServer.Part.Background.{Reads, spared, oldest_le, maybe_write-Holds}
use bayou.DocServer.Part.Append.{
  store_ops, change_ops-eq, append_checks-next, append_checks-other, stored-IsLog,
}

and_true : (b : Bool) → (b && true) ≡ b
and_true true = refl
and_true false = refl

module _ {Op B S : Type 0} (part : Part Op B S) (p : IsPart part) ⦃e : Eq B⦄ (size : B → ℕ)
    (laws : FileLaws part.hash size part.file)
    (impl_get_snapshot : ℕ → Call S (Option (Snapshot Op))) where
  -- An append whose checks pass, one call behind the other.
  append_seen-run :
      (ch : Change Op) (ops : List (FileOp B)) (seen : Snapshot (FileOp B)) (s t u : S) (won : Bool)
      → append_checks part ch.rev_num seen ≡ ok none
      → BaseFile.append_change part.file (change (seen.rev_num + 1) ops) s ≡ (ok won, t)
      → maybe_write_stored_snapshot part impl_get_snapshot ch.rev_num t ≡ (ok tt, u)
      → append_seen part impl_get_snapshot ch ops seen s ≡ (ok won, u)
  unfolding append_seen
  append_seen-run ch ops seen s t u won checked ran wrote = rw (checked, ran, wrote) refl

  module _ (reads : Reads part p size laws impl_get_snapshot) where
    -- The revision that a snapshot of the file holds is one alone.
    same_revision :
        (v : Snapshot (FileOp B)) (a b : List (Change Op)) (m n i j : ℕ)
        → IsLog part v a m i
        → IsLog part v b n j
        → m ≡ n
    same_revision v a b m n i j k l =
        let q : some (part.encode (number_value (pos m)))
            ≡ some (part.encode (number_value (pos n))) =
          sym k.revision ∙ l.revision in
        let r : part.encode (number_value (pos m)) ≡ part.encode (number_value (pos n)) = cc in
        let z = p.hash-inj (pos m) (pos n) (ap part.hash r) in ground arith

    -- For a part whose prefix is a path, with a codec that decodes what it encodes and hashes that
    -- tell numbers apart, in a file that meets its contract, where `_impl_getSnapshot()` gives a
    -- snapshot of the revision, none, or throws, and leaves the part as it is: an append that has
    -- read a snapshot of the file, which may since have got changes, gives true exactly when its
    -- change is the next one in what it read and the file is still at that revision. The part then
    -- has the change behind its others, else those it had, but for changes of an ephemeral part
    -- more than a thousand revisions back. A change of another part alone makes it false too.
    pub append_seen-Holds :
        (ch : Change Op) (s : S) (seen now : Snapshot (FileOp B)) (old log : List (Change Op))
        (base current oldest gone : ℕ)
        → laws.Shows s now
        → IsLog part now log current oldest
        → IsLog part seen old base gone
        → seen.rev_num ≤ now.rev_num
        → (seen.rev_num ≡ now.rev_num → seen ≡ now)
        → (t : S) × (o : ℕ) × (o
            ≤ spared part p size laws impl_get_snapshot
                (if ch.rev_num == suc base && seen.rev_num == now.rev_num
                  then suc current
                  else current)
                oldest)
          × Holds part size laws t
              (if ch.rev_num == suc base && seen.rev_num == now.rev_num
                then log ++ (ch ∷ [])
                else log)
              (if ch.rev_num == suc base && seen.rev_num == now.rev_num
                then suc current
                else current)
              o
          × (append_seen part impl_get_snapshot ch (store_ops part p ch) seen s
              ≡ (ok (ch.rev_num == suc base && seen.rev_num == now.rev_num), t))
    unfolding append_seen lost
    append_seen-Holds ch s seen now old log base current oldest gone shows l k h g =
        elim (Bool-cases (ch.rev_num == suc base)) [
          | inr d ↦ (
            s,
            oldest,
            rw d (oldest_le part p size laws impl_get_snapshot current oldest),
            rw d (record { view = now; shows = shows; is_log = l }),
            rw (append_checks-other part p seen old base gone k ch.rev_num (ground (arith, d)), d)
                refl,
          )
          | inl d ↦
              let n : ch.rev_num ≡ suc base = ground (arith, d) in
              let c =
                ap (λ m. append_checks part m seen) n
                ∙ append_checks-next part p seen old base gone k in
              elim (Bool-cases (seen.rev_num == now.rev_num)) [
                | inl f ↦
                    let same = g (ground (arith, f)) in
                    let at =
                      same_revision now old log base current gone oldest
                        (subst (λ v. IsLog part v old base gone) same k) l in
                    let (t, w, shown, composed, ran) =
                      laws.append s now (change (seen.rev_num + 1) (store_ops part p ch)) shows
                        (tt, (tt, tt)) (ground (arith, f)) in
                    let kept =
                      stored-IsLog part p now log current oldest l size ch w (seen.rev_num + 1)
                        (n ∙ ap (λ m. suc m) at) composed in
                    let (u, o, less, held, wrote) =
                      maybe_write-Holds part p size laws impl_get_snapshot reads t
                        (log ++ (ch ∷ [])) (suc current) oldest ch.rev_num
                        (record { view = w; shows = shown; is_log = kept }) in
                    (
                      u,
                      o,
                      rw (d, f) less,
                      rw (d, f) held,
                      append_seen-run ch (store_ops part p ch) seen s t u true c ran wrote
                          ∙ rw (d, f) refl,
                    )
                | inr f ↦
                    let (t, shown, ran) =
                      laws.stale s now (change (seen.rev_num + 1) (store_ops part p ch)) shows
                        (tt, (tt, tt)) (ground (arith, f, h)) in
                    let (u, o, less, held, wrote) =
                      maybe_write-Holds part p size laws impl_get_snapshot reads t log current
                        oldest ch.rev_num (record { view = now; shows = shown; is_log = l }) in
                    (
                      u,
                      o,
                      rw (d, f) less,
                      rw (d, f) held,
                      append_seen-run ch (store_ops part p ch) seen s t u false c ran wrote
                          ∙ rw (d, f) refl,
                    )
              ]
        ]

    -- For a part whose prefix is a path, with a codec that decodes what it encodes and hashes that
    -- tell numbers apart, in a file that meets its contract, where `_impl_getSnapshot()` gives a
    -- snapshot of the revision, none, or throws, and leaves the part as it is: appending a change
    -- throws when its delta is empty, gives true and adds the change when it is the next one, and
    -- else gives false, also where it lies beyond the next revision. The part keeps its other
    -- changes, but for those of an ephemeral part more than a thousand revisions back.
    pub append_change-Holds :
        (ch : Change Op) (s : S) (log : List (Change Op)) (current oldest : ℕ)
        → Holds part size laws s log current oldest
        → (t : S) × (o : ℕ) × (o
            ≤ spared part p size laws impl_get_snapshot
                (if not (is_empty ch.delta) && ch.rev_num == suc current
                  then suc current
                  else current)
                oldest)
          × Holds part size laws t
              (if not (is_empty ch.delta) && ch.rev_num == suc current
                then log ++ (ch ∷ [])
                else log)
              (if not (is_empty ch.delta) && ch.rev_num == suc current
                then suc current
                else current)
              o
          × (append_change part impl_get_snapshot ch s
              ≡ (if is_empty ch.delta then err bad_value else ok (ch.rev_num == suc current), t))
    unfolding append_change
    append_change-Holds ch s log current oldest h = elim (Bool-cases (is_empty ch.delta)) [
      | inl d ↦ (
        s,
        oldest,
        rw d (oldest_le part p size laws impl_get_snapshot current oldest),
        rw d h,
        rw d refl,
      )
      | inr d ↦
          let (t, shown, ran) = laws.read s h.view h.shows in
          let (u, o, less, held, wrote) =
            append_seen-Holds ch t h.view h.view log log current current oldest oldest shown
              h.is_log h.is_log (omega arith) (λ _. refl) in
          let z : (ch.rev_num == suc current && h.view.rev_num == h.view.rev_num)
              ≡ (ch.rev_num == suc current) =
            rw (beq_self h.view.rev_num) (and_true (ch.rev_num == suc current)) in
          (
            u,
            o,
            rw d (rw z at less),
            rw d (rw z at held),
            rw (d, change_ops-eq part p ch, ran) (wrote ∙ rw z refl),
          )
    ]
