-- ===== src/DocServer/SnapshotManager/Serving.antt =====
-- About what a snapshot manager gives whatever its cache has, in
-- local-modules/@bayou/doc-server/SnapshotManager.js.
use bayou.Prelude.{
  ℕ, ◌+◌, ◌-◌, ◌≡◌, refl, sym, ◌∙◌, ap, subst, Bool, true, false, Bool-cases, inl, inr, Option,
  none, some, Option-cases, List, [], ◌∷◌, Eq, ◌==◌, nat_eq, Result, ok, err, Failure, ltb, arith,
  if◌then◌else◌,
}
use bayou.JsMap
use bayou.JsMap.{JsMap, get-set}
use bayou.Ot.Delta
use bayou.Ot.Delta.{DeltaClass}
use bayou.Ot.Change.{Change}
use bayou.Ot.Snapshot
use bayou.Ot.Snapshot.{Snapshot}
use bayou.FileStore.BaseFile
use bayou.FileStore.BaseFile.{Call, continue, ◌>>=◌, ◌>>◌, check_that}
use bayou.FileStore.FileLaws.{FileLaws}
use bayou.FileStore.Op.{FileOp}
use bayou.DocServer.BaseControl.{lift, get_composed_changes, max_change_reads_per_iteration}
use bayou.DocServer.Part.{Part}
use bayou.DocServer.Part.Calls.{
  current_rev_num, check_rev_num_range, read_change_range, get_change_range, get_change,
  first_available, read_stored_snapshot_or_null,
}
use bayou.DocServer.Part.Log.{IsPart}
use bayou.DocServer.Part.Background.{Reads}
use bayou.DocServer.SnapshotManager.{
  SnapshotManager, newest, is_available, whole_range, make_snapshot, compose_first, make_snapshot_0,
  keep_stored, retrieve, keep_rejected, prepare, found, from_base, get_snapshot, on_file,
  set_snapshot,
}
use bayou.DocServer.Keeping.{
  Keeps, then-Keeps, if-Keeps, lift-Keeps, check_that-Keeps, composed-Keeps,
}
use bayou.DocServer.SnapshotManager.Dated.{
  available-kept, IsOf, Dated, set-Dated, newest-get, made-IsOf,
}

module _ {Op B S : Type 0} (class : DeltaClass Op) (part : Part Op B S) ⦃e : Eq B⦄ (size : B → ℕ)
    (file : FileLaws part.hash size part.file) (v : Snapshot (FileOp B)) where
  abbrev Showing : S → Type 0
  Showing s = file.Shows s v

  read-Keeps : Keeps Showing (BaseFile.get_snapshot part.file none)
  read-Keeps = record {
    at = λ s h.
        let (t, shown, ran) = file.read s v h in
        subst Showing (sym (ap (λ (r : Result (Snapshot (FileOp B)) × S). r.1) ran)) shown;
  }

  current-Keeps : Keeps Showing (current_rev_num part)
  unfolding current_rev_num
  current-Keeps = then-Keeps Showing _ _ read-Keeps λ x. lift-Keeps Showing _

  range-Keeps :
      (start end : ℕ) (allow : Bool) → Keeps Showing (get_change_range part start end allow)
  unfolding get_change_range check_rev_num_range read_change_range
  range-Keeps start end allow =
      then-Keeps Showing _ _
        (then-Keeps Showing _ _ (check_that-Keeps Showing _ _)
          λ _. then-Keeps Showing _ _ current-Keeps λ current. check_that-Keeps Showing _ _)
        λ _. if-Keeps Showing (start == end) _ _ (lift-Keeps Showing _) (
          if-Keeps Showing (ltb max_change_reads_per_iteration (end - start)) _ _
            (lift-Keeps Showing _) (then-Keeps Showing _ _ read-Keeps λ x. lift-Keeps Showing _))

  first-Keeps : (l : List (Change Op)) → Keeps Showing (first_available part l)
  first-Keeps [] = lift-Keeps Showing _
  first-Keeps (ch ∷ _) = lift-Keeps Showing _

  change-Keeps : (r : ℕ) → Keeps Showing (get_change part r)
  unfolding get_change
  change-Keeps r = then-Keeps Showing _ _ (range-Keeps r (r + 1) true) first-Keeps

  stored-Keeps : Keeps Showing (read_stored_snapshot_or_null part)
  unfolding read_stored_snapshot_or_null
  stored-Keeps = then-Keeps Showing _ _ read-Keeps λ x. lift-Keeps Showing _

  whole-Keeps :
      (base : Delta.Delta Op) (start end : ℕ)
      → Keeps Showing (get_composed_changes class (whole_range class part) base start end true)
  whole-Keeps base start end =
      composed-Keeps Showing class (whole_range class part) (λ i j. range-Keeps i j false) base
        start end true

  made-Keeps :
      (r : ℕ) (promise : Result (Snapshot Op)) → Keeps Showing (make_snapshot class part r promise)
  unfolding make_snapshot
  made-Keeps r promise = then-Keeps Showing _ _ (lift-Keeps Showing promise) λ base.
      then-Keeps Showing _ _ (whole-Keeps base.contents (base.rev_num + 1) (r + 1))
        λ contents. lift-Keeps Showing _

  composed-IsOf :
      (r : ℕ) (x : Result (Delta.Delta Op) × S)
      → IsOf r (continue x (λ contents. lift (Snapshot.make class r contents))).0
  composed-IsOf r (ok contents, t) = made-IsOf class r contents
  composed-IsOf r (err f, t) = tt

  make_snapshot-IsOf :
      (r : ℕ) (promise : Result (Snapshot Op)) (s : S)
      → IsOf r (make_snapshot class part r promise s).0
  unfolding make_snapshot
  make_snapshot-IsOf r (ok base) s = composed-IsOf r (
      get_composed_changes class (whole_range class part) base.contents (base.rev_num + 1) (r + 1)
        true s)
  make_snapshot-IsOf r (err f) s = tt

  -- A manager over the file, whose snapshots are of their revisions.
  pub record IsDated (m : SnapshotManager Op S) : Type 0 where
    pub shows : file.Shows m.file v
    pub dated : Dated m.snapshots

  on_file-Keeps : {A : Type 0} (call : Call S A) → Keeps Showing call → Keeps IsDated (on_file call)
  on_file-Keeps call k = record {
    at = λ m d. record { shows = k.at m.file d.shows; dated = d.dated };
  }

  set_snapshot-Keeps :
      (r : ℕ) (x : Result (Snapshot Op)) → IsOf r x → Keeps IsDated (set_snapshot r x)
  set_snapshot-Keeps r x h = record {
    at = λ m d. record { shows = d.shows; dated = set-Dated r x m.snapshots h d.dated };
  }

  pick :
      {A : Type 0} (b : Bool) (x y : Result A × SnapshotManager Op S)
      → IsDated x.1
      → IsDated y.1
      → IsDated (if b then x else y).1
  pick true x y h g = h
  pick false x y h g = g

  keep_made-Keeps :
      (x : Result (Snapshot Op))
      → IsOf 0 x
      → Keeps IsDated (lift x >>= λ snapshot. set_snapshot 0 (ok snapshot))
  keep_made-Keeps (ok u) h = record { at = (set_snapshot-Keeps 0 (ok u) h).at }
  keep_made-Keeps (err f) h = record { at = λ m d. d }

  there-Keeps : Keeps Showing (λ s. is_available (get_change part 0 s))
  there-Keeps = record {
    at =
        λ s h. subst Showing (sym (available-kept (get_change part 0 s))) ((change-Keeps 0).at s h);
  }

  compose_first-Keeps : Keeps IsDated (compose_first class part)
  unfolding compose_first
  compose_first-Keeps = then-Keeps IsDated _ _ (on_file-Keeps _ there-Keeps) λ there.
      if-Keeps IsDated there _ _
        (then-Keeps IsDated _ _ (on_file-Keeps _ (whole-Keeps [] 0 1))
          λ contents. keep_made-Keeps (Snapshot.make class 0 contents) (made-IsOf class 0 contents))
        (lift-Keeps IsDated _)

  make_snapshot_0-Keeps : Keeps IsDated (make_snapshot_0 class part)
  unfolding make_snapshot_0
  make_snapshot_0-Keeps = record {
    at = λ m d. pick (JsMap.has 0 m.snapshots) _ _ d (compose_first-Keeps.at m d);
  }

  keep_stored-Keeps : (x : Option (Snapshot Op)) → Keeps IsDated (keep_stored class part x)
  keep_stored-Keeps none = lift-Keeps IsDated _
  keep_stored-Keeps (some u) = set_snapshot-Keeps u.rev_num (ok u) refl

  retrieve-Keeps : Keeps IsDated (retrieve class part)
  unfolding retrieve
  retrieve-Keeps =
      then-Keeps IsDated _ _ (on_file-Keeps _ stored-Keeps)
        λ stored. then-Keeps IsDated _ _ (keep_stored-Keeps stored) λ _. make_snapshot_0-Keeps

  rejected-IsDated :
      (x : Result (Unit {0}) × SnapshotManager Op S)
      → IsDated x.1
      → IsDated (keep_rejected class part x).1
  rejected-IsDated (ok _, t) d = d
  rejected-IsDated (err f, t) d = record { shows = d.shows; dated = d.dated }

  first_read-IsDated :
      (x : Option Failure) (m : SnapshotManager Op S)
      → IsDated m
      → IsDated
          (elim x as (λ _. Result (Unit {0}) × SnapshotManager Op S) [
            | some f ↦ (err f, m)
            | none ↦ keep_rejected class part (retrieve class part m)
          ]).1
  first_read-IsDated (some f) m d = d
  first_read-IsDated none m d = rejected-IsDated (retrieve class part m) (retrieve-Keeps.at m d)

  prepare-Keeps : Keeps IsDated (prepare class part)
  unfolding prepare
  prepare-Keeps = record {
    at = λ m d. pick (JsMap.size m.snapshots == 0) _ _ (first_read-IsDated m.retrieved m d) d;
  }

  -- What a reading gives is of the revision, if there is something, and what it leaves is right.
  abbrev Served : ℕ → Result (Option (Snapshot Op)) × SnapshotManager Op S → Type 0
  Served r y = IsDated y.1 × ((u : Snapshot Op) → y.0 ≡ ok (some u) → u.rev_num ≡ r)

  found-IsOf :
      (r : ℕ) (x : Result (Snapshot Op)) (u : Snapshot Op)
      → IsOf r x
      → found class part x ≡ ok (some u)
      → u.rev_num ≡ r
  found-IsOf r (err f) u h q = absurd (ground (arith, q))
  found-IsOf r (ok w) u h q = let e : w ≡ u = cc in sym (ap (λ (z : Snapshot Op). z.rev_num) e) ∙ h

  from_base-Served :
      (r : ℕ) (m : SnapshotManager Op S) → IsDated m → Served r (from_base class part r m)
  unfolding from_base
  from_base-Served r m d = elim (Option-cases (newest m.snapshots r)) [
    | inl q ↦ rw (from_base, q) (d, λ u h. absurd (ground (arith, h)))
    | inr ((b, x), q) ↦
        let h = d.dated b x (newest-get m.snapshots r b x q) in
        elim (Bool-cases (b == r)) [
          | inl z ↦
              let e : b ≡ r = ground (arith, z) in
              rw (from_base, q, z) (d, λ u g. found-IsOf b x u h g ∙ e)
          | inr z ↦
              let i = make_snapshot-IsOf r x m.file in
              rw (from_base, q, z)
                (
                  record {
                    shows = (made-Keeps r x).at m.file d.shows;
                    dated = set-Dated r _ m.snapshots i d.dated;
                  },
                  λ u g. found-IsOf r _ u i g,
                )
        ]
  ]

  continue-Served :
      (r : ℕ) (x : Result (Unit {0}) × SnapshotManager Op S)
      → IsDated x.1
      → Served r (continue x (λ _. from_base class part r))
  continue-Served r (ok _, t) d = from_base-Served r t d
  continue-Served r (err f, t) d = (d, λ u h. absurd (ground (arith, h)))

  get_snapshot-Served :
      (r : ℕ) (m : SnapshotManager Op S) → IsDated m → Served r (get_snapshot class part r m)
  unfolding get_snapshot
  get_snapshot-Served r m d = continue-Served r (prepare class part m) (prepare-Keeps.at m d)

module _ {Op B S : Type 0} (class : DeltaClass Op) (part : Part Op B S) (p : IsPart part) ⦃e : Eq B⦄
    (size : B → ℕ) (file : FileLaws part.hash size part.file) where
  -- `_impl_getSnapshot()` of PropertyControl.js and CaretControl.js, by a manager with some cache.
  abbrev pub read_by : SnapshotManager Op S → ℕ → Call S (Option (Snapshot Op))
  read_by m r s =
      let after = get_snapshot class part r (record m { file = s }) in (after.0, after.1.file)

  -- A manager over the file, whose cached snapshots are of their revisions, is what an append asks for.
  pub manager-Reads :
      (m : SnapshotManager Op S) → Dated m.snapshots → Reads part p size file (read_by m)
  manager-Reads m dated s log current oldest r h b =
      let (d, of) =
        get_snapshot-Served class part size file h.view r (record m { file = s })
          (record { shows = h.shows; dated = dated }) in
      (
        (read_by m r s).1,
        (read_by m r s).0,
        record { view = h.view; shows = d.shows; is_log = h.is_log },
        of,
        refl,
      )
