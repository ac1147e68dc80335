-- ===== src/DocServer/Part/Stored.antt =====
-- About storing a snapshot of a part, in local-modules/@bayou/doc-server/BaseControl.js.
use bayou.Prelude.{
  ℕ, zero, suc, ◌+◌, ◌-◌, ◌≤◌, ◌≡◌, ◌≢◌, refl, sym, ◌∙◌, ap, true, false, ◌&&◌, Bool-cases, inl,
  inr, Option, none, some, List, [], ◌∷◌, Eq, ◌==◌, nat_eq, string_eq, beq_ne, beq_self, String, ok,
  leb, ltb, nth, if◌then◌else◌, arith,
}
use bayou.Prelude.Int.{pos}
use bayou.Ot.Delta.{Delta}
use bayou.Ot.Change.{Change, change}
use bayou.Ot.Snapshot
use bayou.Ot.Snapshot.{Snapshot}
use bayou.FileStore.StoragePath
use bayou.FileStore.StoragePath.Decimals.{indexed-inj}
use bayou.FileStore.Delta.{file_class}
use bayou.FileStore.Delta.Meaning.{in_range, apply, Valid}
use bayou.FileStore.Op.{FileOp, write_path, delete_path_range, op_write_path, op_delete_path_range}
use bayou.FileStore.Snapshot.{get, check_path_present}
use bayou.FileStore.Snapshot.Laws.{blob_at, read_path, checks, blob_at-compose}
use bayou.DocServer.Part.{
  Part, number_value, snapshot_value, change_path_prefix, revision_number_path,
  stored_snapshot_path, path_for_change, rev_num_in, as_rev_num,
}
use bayou.DocServer.Part.Calls.{current_rev_num, snapshot_ops, write_stored_snapshot}
use bayou.DocServer.Part.Paths.{
  revision_number_path-is_instance, stored_snapshot_path-is_instance,
  change_path_prefix-is_instance, revision≢change, snapshot≢change, snapshot≢revision,
}
use bayou.DocServer.Part.Log.{IsPart, IsLog, Holds, encoded}
use bayou.FileStore.FileLaws.{FileLaws}

-- The paths that a deletion of a range hits.
in_range-indexed :
    (prefix : String) (n left i : ℕ)
    → in_range prefix n left (StoragePath.indexed prefix i) ≡ (leb n i && ltb i (n + left))
unfolding in_range
in_range-indexed prefix n zero i = ground arith
in_range-indexed prefix n (suc left) i = elim (Bool-cases (n == i)) [
  | inl q ↦
      let e : n ≡ i = ground (arith, q) in
      rw (e, beq_self (StoragePath.indexed prefix i)) (ground arith)
  | inr q ↦
      rw
        (
          beq_ne (StoragePath.indexed prefix n) (StoragePath.indexed prefix i)
              λ d. absurd (ground (arith, q, indexed-inj prefix n i d)),
          in_range-indexed prefix (n + 1) left i,
        )
        (ground (arith, q))
]

in_range-other :
    (prefix : String) (n left : ℕ) (k : String)
    → ((i : ℕ) → k ≢ StoragePath.indexed prefix i)
    → in_range prefix n left k ≡ false
unfolding in_range
in_range-other prefix n zero k h = refl
in_range-other prefix n (suc left) k h =
    rw (beq_ne (StoragePath.indexed prefix n) k λ d. h n (sym d))
      (in_range-other prefix (n + 1) left k h)

abbrev pub later : ℕ → ℕ → ℕ
later m n = if ltb m n then n else m

leb-later :
    {B : Type 0} (m n i : ℕ) (x : Option B)
    → (if ltb i n then none else if leb m i then x else none)
      ≡ (if leb (later m n) i then x else none)
leb-later m n i x = ground arith

later_le : (m n k : ℕ) → m ≤ k → n ≤ k → later m n ≤ k
later_le m n k h g = elim (Bool-cases (ltb m n)) [ inl q ↦ rw q g | inr q ↦ rw q h ]

module _ {Op B S : Type 0} (part : Part Op B S) (p : IsPart part) where
  pub rev_num_in-eq :
      (v : Snapshot (FileOp B)) (log : List (Change Op)) (current oldest : ℕ)
      → IsLog part v log current oldest
      → rev_num_in part v ≡ ok current
  unfolding rev_num_in get as_rev_num
  rev_num_in-eq v log current oldest l =
      let i = revision_number_path-is_instance part p.is_path in
      let b = part.encode (number_value (pos current)) in
      let there : check_path_present part.hash part.is_hash v (revision_number_path part)
          ≡ ok none =
        (checks part.hash part.is_hash v (revision_number_path part) (part.hash b) l.document i
          (p.hash-is_hash b)).1
        ∙ rw l.revision refl in
      rw
        (
          there,
          read_path part.hash part.is_hash v (revision_number_path part) l.document i,
          l.revision,
          p.decode-encode (number_value (pos current)),
        )
        refl

  -- How many changes an ephemeral part loses when a snapshot is stored.
  abbrev pub lost_before : Snapshot Op → ℕ
  lost_before u = if part.ephemeral then u.rev_num - 1000 else 0

  abbrev clear_ops : ℕ → Delta (FileOp B)
  clear_ops n = if n == 0 then [] else (delete_path_range (change_path_prefix part) 0 n ∷ [])

  snapshot_ops-eq :
      (u : Snapshot Op)
      → snapshot_ops part u
        ≡ ok (
            write_path (stored_snapshot_path part) (part.encode (snapshot_value u))
            ∷ clear_ops (lost_before u))
  unfolding snapshot_ops op_write_path op_delete_path_range StoragePath.check
  snapshot_ops-eq u =
      let i = stored_snapshot_path-is_instance part p.is_path in
      let j = change_path_prefix-is_instance part p.is_path in
      elim (Bool-cases (lost_before u == 0)) [
        | inl q ↦ rw (i, q) refl
        | inr q ↦ let z : leb 1 (lost_before u) ≡ true = ground (arith, q) in rw (i, j, q, z) refl
      ]

  -- What the operations make of what was stored: the snapshot, and the changes before `n` gone.
  stored_ops : Snapshot Op → ℕ → Delta (FileOp B)
  stored_ops u n =
      write_path (stored_snapshot_path part) (part.encode (snapshot_value u)) ∷ clear_ops n

  stored_ops-kept :
      (u : Snapshot Op) (n : ℕ) (f : String → Option B) (k : String)
      → stored_snapshot_path part ≢ k
      → ((i : ℕ) → k ≢ path_for_change part i)
      → apply part.hash (stored_ops u n) f k ≡ f k
  unfolding stored_ops apply path_for_change
  stored_ops-kept u n f k h g =
      let z = beq_ne (stored_snapshot_path part) k h in
      elim (Bool-cases (n == 0)) [
        | inl q ↦ rw (q, z) refl
        | inr q ↦ rw (q, z, in_range-other (change_path_prefix part) 0 (n - 0) k g) refl
      ]

  range-change :
      (n i : ℕ) → in_range (change_path_prefix part) 0 (n - 0) (path_for_change part i) ≡ ltb i n
  unfolding path_for_change
  range-change n i = in_range-indexed (change_path_prefix part) 0 (n - 0) i ∙ ground arith

  stored_ops-change :
      (u : Snapshot Op) (n i : ℕ) (f : String → Option B)
      → apply part.hash (stored_ops u n) f (path_for_change part i)
        ≡ (if ltb i n then none else f (path_for_change part i))
  unfolding stored_ops apply
  stored_ops-change u n i f =
      let z =
        beq_ne (stored_snapshot_path part) (path_for_change part i) (snapshot≢change part i) in
      elim (Bool-cases (n == 0)) [
        | inl q ↦ let y : ltb i n ≡ false = ground (arith, q) in rw (q, z, y) refl
        | inr q ↦ rw (q, z, range-change n i) refl
      ]

  stored_ops-Valid : (u : Snapshot Op) (n : ℕ) → Valid (stored_ops u n)
  unfolding stored_ops
  stored_ops-Valid u n = elim (Bool-cases (n == 0)) [
    | inl q ↦ rw q (tt, tt)
    | inr q ↦ rw q (tt, (tt, tt))
  ]

  stored_ops-snapshot :
      (u : Snapshot Op) (n : ℕ) (f : String → Option B)
      → apply part.hash (stored_ops u n) f (stored_snapshot_path part)
        ≡ some (part.encode (snapshot_value u))
  unfolding stored_ops apply path_for_change
  stored_ops-snapshot u n f =
      let z = beq_self (stored_snapshot_path part) in
      elim (Bool-cases (n == 0)) [
        | inl q ↦ rw (q, z) refl
        | inr q ↦
            rw
              (
                q,
                z,
                in_range-other (change_path_prefix part) 0 (n - 0) (stored_snapshot_path part)
                    (snapshot≢change part),
              )
              refl
      ]

  module _ (v : Snapshot (FileOp B)) (log : List (Change Op)) (current oldest : ℕ)
      (l : IsLog part v log current oldest) ⦃e : Eq B⦄ (size : B → ℕ) where
    lost_le : (u : Snapshot Op) → u.rev_num ≤ current → lost_before u ≤ current
    lost_le u b = elim (Bool-cases part.ephemeral) [
      | inl q ↦ rw q (omega (arith, b))
      | inr q ↦ rw q (omega arith)
    ]

    -- What storing a snapshot leaves.
    write-IsLog :
        (u : Snapshot Op) (w : Snapshot (FileOp B)) (r : ℕ)
        → u.rev_num ≤ current
        → Snapshot.compose (file_class part.hash size) v (change r (stored_ops u (lost_before u)))
          ≡ ok w
        → IsLog part w log current (later oldest (lost_before u))
          × (blob_at part.hash w (stored_snapshot_path part)
              ≡ some (part.encode (snapshot_value u)))
    write-IsLog u w r b c =
        let (t, f, d, _, m) =
          blob_at-compose part.hash size v (change r (stored_ops u (lost_before u))) l.document
            (stored_ops-Valid u (lost_before u)) in
        let same : t ≡ w = cc in
        (
          record {
            document = rw same at d;
            count = l.count;
            numbered = l.numbered;
            kept = later_le oldest (lost_before u) current l.kept (lost_le u b);
            revision =
                rw same at (m (revision_number_path part))
                ∙ stored_ops-kept u (lost_before u) (blob_at part.hash v)
                    (revision_number_path part) (snapshot≢revision part) (revision≢change part)
                ∙ l.revision;
            changes = λ i.
                rw same at (m (path_for_change part i))
                ∙ stored_ops-change u (lost_before u) i (blob_at part.hash v)
                ∙ ap (λ x. if ltb i (lost_before u) then none else x) (l.changes i)
                ∙ leb-later oldest (lost_before u) i (encoded part (nth i log));
          },
          rw same at (m (stored_snapshot_path part))
              ∙ stored_ops-snapshot u (lost_before u) (blob_at part.hash v),
        )

  module _ ⦃e : Eq B⦄ (size : B → ℕ) (laws : FileLaws part.hash size part.file) where
    pub current_rev_num-Holds :
        (s : S) (log : List (Change Op)) (current oldest : ℕ)
        (h : Holds part size laws s log current oldest)
        → (t : S) × laws.Shows t h.view × (current_rev_num part s ≡ (ok current, t))
    unfolding current_rev_num
    current_rev_num-Holds s log current oldest h =
        let (t, shown, ran) = laws.read s h.view h.shows in
        (t, shown, rw (ran, rev_num_in-eq h.view log current oldest h.is_log) refl)

    -- The stored snapshot, in what a file shows.
    abbrev pub Stores : S → Snapshot Op → Type 0
    Stores s u =
        (v : Snapshot (FileOp B)) × laws.Shows s v
        × (blob_at part.hash v (stored_snapshot_path part) ≡ some (part.encode (snapshot_value u)))

    -- For a part whose prefix is a path, with a codec that decodes what it encodes and hashes that
    -- tell numbers apart, in a file that meets its contract: storing a snapshot of an existing
    -- revision puts it into the part and keeps all changes, but for those that an ephemeral part
    -- has more than a thousand revisions before it.
    pub write_stored_snapshot-Holds :
        (u : Snapshot Op) (s : S) (log : List (Change Op)) (current oldest : ℕ)
        → Holds part size laws s log current oldest
        → u.rev_num ≤ current
        → (t : S) × Holds part size laws t log current (later oldest (lost_before u))
          × Stores t u
          × (write_stored_snapshot part u s ≡ (ok tt, t))
    unfolding write_stored_snapshot stored_ops
    write_stored_snapshot-Holds u s log current oldest h b =
        let (t, shown, counted) = laws.number s h.view h.shows in
        let ch = change (h.view.rev_num + 1) (stored_ops u (lost_before u)) in
        let (r, w, showed, composed, ran) =
          laws.append t h.view ch shown (stored_ops-Valid u (lost_before u)) (omega arith) in
        let (kept, there) =
          write-IsLog h.view log current oldest h.is_log size u w (h.view.rev_num + 1) b composed in
        (
          r,
          record { view = w; shows = showed; is_log = kept },
          (w, showed, there),
          rw (snapshot_ops-eq u, counted, ran) refl,
        )
