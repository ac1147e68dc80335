-- ===== src/DocServer/SnapshotManager/Reading.antt =====
-- About `getSnapshot()` in local-modules/@bayou/doc-server/SnapshotManager.js.
use bayou.Prelude.{
  ℕ, suc, ◌≤◌, ◌≡◌, refl, sym, ◌∙◌, subst, true, false, Bool-cases, inl, inr, ◌⊎◌, none, some, List,
  [], ◌∷◌, take, nth, nth-inside, Eq, ◌==◌, nat_eq, Result, ok, leb, arith,
}
use bayou.JsMap
use bayou.JsMap.{JsMap, get-set}
use bayou.Ot.Delta
use bayou.Ot.Delta.{DeltaClass}
use bayou.Ot.Delta.Laws.{IsDeltaClass}
use bayou.Ot.Change.{Change}
use bayou.Ot.Snapshot
use bayou.Ot.Snapshot.{Snapshot}
use bayou.Ot.Snapshot.Chunks.{deltas, AllValid, take-AllValid, compose_all_total}
use bayou.FileStore.FileLaws.{FileLaws}
use bayou.FileStore.Op.{FileOp}
use bayou.DocServer.BaseControl.Composition.{get_composed_changes-eq}
use bayou.DocServer.Part.{Part, stored_snapshot_in}
use bayou.DocServer.Part.Calls.{get_change, read_stored_snapshot_or_null}
use bayou.DocServer.Part.Log.{IsPart, IsLog}
use bayou.DocServer.Part.Ranges.{get_change_range-eq}
use bayou.DocServer.SnapshotManager.{
  SnapshotManager, newest, make_snapshot, whole_range, compose_first, make_snapshot_0, retrieve,
  prepare, from_base, get_snapshot,
}
use bayou.DocServer.SnapshotManager.Cache.{IsAt, newest-some, reads_range, make_snapshot-eq}

has-get :
    {V : Type 0} (k : ℕ) (m : JsMap ℕ V) → JsMap.has k m ≡ true → (v : V) × (JsMap.get k m ≡ some v)
unfolding JsMap.has JsMap.get
has-get k [] h = absurd (ground arith)
has-get k ((j, v) ∷ m) h = elim (Bool-cases (j == k)) [
  | inl q ↦ (v, rw q refl)
  | inr q ↦ let (w, e) = has-get k m (ground (arith, h, q)) in (w, rw q e)
]

get-size :
    {V : Type 0} (k : ℕ) (m : JsMap ℕ V) (v : V)
    → JsMap.get k m ≡ some v
    → (JsMap.size m == 0) ≡ false
unfolding JsMap.get
get-size k [] v h = absurd (ground arith)
get-size k (_ ∷ m) v h = ground arith

get-nothing : {V : Type 0} (i : ℕ) (x : V) → JsMap.get i [] ≡ some x → ⊥
unfolding JsMap.get
get-nothing i x h = ground arith

take_one : {A : Type 0} (xs : List A) (x : A) → nth 0 xs ≡ some x → take 1 xs ≡ x ∷ []
take_one [] x h = absurd (ground arith)
take_one (y ∷ xs) x h = ground (arith, h)

module _ {Op B S : Type 0} {c : DeltaClass Op} {Valid : Delta.Delta Op → Type 0}
    (laws : IsDeltaClass c Valid) (empty_document : c.impl_is_document [] ≡ true)
    (part : Part Op B S) (p : IsPart part) ⦃e : Eq B⦄ (size : B → ℕ)
    (file : FileLaws part.hash size part.file) (log : List (Change Op)) (valid : AllValid laws log)
    (v : Snapshot (FileOp B)) (current : ℕ) (l : IsLog part v log current 0) where
  abbrev At : ℕ → Snapshot Op → Type 0
  At = IsAt laws empty_document part p size file log valid

  -- What is cached are the compositions of the changes.
  abbrev pub IsCached : JsMap ℕ (Result (Snapshot Op)) → Type 0
  IsCached m =
      (i : ℕ) (x : Result (Snapshot Op))
      → JsMap.get i m ≡ some x
      → (i ≤ current) × (u : Snapshot Op) × (x ≡ ok u) × At i u

  -- The stored snapshot of the part is, if there is one, such a composition.
  abbrev pub StoresComposed : Type 0
  StoresComposed =
      (stored_snapshot_in part v ≡ ok none)
      ⊎ ((u : Snapshot Op) × (stored_snapshot_in part v ≡ ok (some u))
          × (u.rev_num ≤ current)
          × At u.rev_num u)

  -- A manager whose cache is right: it is empty, or has the first snapshot.
  pub record IsManager (m : SnapshotManager Op S) : Type 0 where
    pub shows : file.Shows m.file v
    pub cached : IsCached m.snapshots
    pub quiet : m.retrieved ≡ none
    pub start :
        (m.snapshots ≡ []) ⊎ ((x : Result (Snapshot Op)) × (JsMap.get 0 m.snapshots ≡ some x))

  pub record IsReady (m : SnapshotManager Op S) : Type 0 where
    pub shows : file.Shows m.file v
    pub cached : IsCached m.snapshots
    pub quiet : m.retrieved ≡ none
    pub first : Result (Snapshot Op)
    pub starts : JsMap.get 0 m.snapshots ≡ some first

  set-IsCached :
      (m : JsMap ℕ (Result (Snapshot Op))) (r : ℕ) (u : Snapshot Op)
      → IsCached m
      → r ≤ current
      → At r u
      → IsCached (JsMap.set r (ok u) m)
  set-IsCached m r u h b a i x g = elim (Bool-cases (r == i)) [
    | inl q ↦
        let n : r ≡ i = ground (arith, q) in
        let f : JsMap.get i (JsMap.set r (ok u) m) ≡ some (ok u) =
          get-set r i (ok u) m ∙ rw q refl in
        (omega (arith, b, n), u, same_some x (ok u) (sym g ∙ f), subst (λ k. At k u) n a)
    | inr q ↦ h i x (sym (get-set r i (ok u) m ∙ rw q refl) ∙ g)
  ]
    where
      same_some : (x y : Result (Snapshot Op)) → some x ≡ some y → x ≡ y
      same_some x y h = cc

  -- The first change is there.
  first_there :
      (s : S)
      → file.Shows s v
      → (t : S) × (ch : Change Op) × file.Shows t v × (get_change part 0 s ≡ (ok ch, t))
  unfolding get_change
  first_there s shows =
      let (t, shown, ran) =
        get_change_range-eq part p size file s v log current 0 0 1 true shows l in
      let y : leb 1 (suc current) ≡ true = ground arith in
      let (ch, q) = nth-inside 0 log (omega (arith, l.count)) in
      (t, ch, shown, rw (ran, y, take_one log ch q) refl)

  compose_first-IsReady :
      (m : SnapshotManager Op S)
      → file.Shows m.file v
      → IsCached m.snapshots
      → m.retrieved ≡ none
      → (t : SnapshotManager Op S) × IsReady t × (compose_first c part m ≡ (ok tt, t))
  unfolding compose_first Snapshot.make
  compose_first-IsReady m shows cached quiet =
      let (t, ch, shown, there) = first_there m.file shows in
      let (d, q, made, _) =
        compose_all_total laws [] (deltas (take 1 log)) laws.empty_valid
          (take-AllValid laws 1 log valid) empty_document in
      let (u, showed, ran) =
        get_composed_changes-eq laws log valid (whole_range c part) (λ x. file.Shows x v)
          (reads_range laws empty_document part p size file log valid v current l) [] 0 1 t
          laws.empty_valid empty_document (omega arith) (omega (arith, l.count)) shown in
      let first : Snapshot Op = record { rev_num = 0; contents = d } in
      (
        record {
          snapshots = JsMap.set 0 (ok first) m.snapshots;
          retrieved = m.retrieved;
          file = u;
        },
        record {
          shows = showed;
          cached =
              set-IsCached m.snapshots 0 first cached (omega arith)
                (record { rev = refl; composes = q });
          quiet = quiet;
          first = ok first;
          starts = get-set 0 0 (ok first) m.snapshots;
        },
        rw (there, ran, q, made) refl,
      )

  make_snapshot_0-IsReady :
      (m : SnapshotManager Op S)
      → file.Shows m.file v
      → IsCached m.snapshots
      → m.retrieved ≡ none
      → (t : SnapshotManager Op S) × IsReady t × (make_snapshot_0 c part m ≡ (ok tt, t))
  unfolding make_snapshot_0
  make_snapshot_0-IsReady m shows cached quiet = elim (Bool-cases (JsMap.has 0 m.snapshots)) [
    | inl q ↦
        let (x, there) = has-get 0 m.snapshots q in
        (
          m,
          record { shows = shows; cached = cached; quiet = quiet; first = x; starts = there },
          rw q refl,
        )
    | inr q ↦
        let (t, ready, ran) = compose_first-IsReady m shows cached quiet in (t, ready, rw q ran)
  ]

  retrieve-IsReady :
      (m : SnapshotManager Op S)
      → StoresComposed
      → file.Shows m.file v
      → m.snapshots ≡ []
      → m.retrieved ≡ none
      → (t : SnapshotManager Op S) × IsReady t × (retrieve c part m ≡ (ok tt, t))
  unfolding retrieve read_stored_snapshot_or_null
  retrieve-IsReady m stores shows empty quiet =
      let (t, shown, ran) = file.read m.file v shows in
      let none_cached : IsCached [] = λ i x h. absurd (get-nothing i x h) in
      elim stores [
        | inl q ↦
            let (u, ready, made) =
              make_snapshot_0-IsReady (record m { file = t }) shown (rw empty none_cached) quiet in
            (u, ready, rw (ran, q) made)
        | inr (stored, q, b, a) ↦
            let (u, ready, made) =
              make_snapshot_0-IsReady
                (record m {
                  snapshots = JsMap.set stored.rev_num (ok stored) m.snapshots;
                  file = t;
                })
                shown (set-IsCached m.snapshots stored.rev_num stored (rw empty none_cached) b a)
                quiet in
            (u, ready, rw (ran, q) made)
      ]

  prepare-IsReady :
      (m : SnapshotManager Op S)
      → StoresComposed
      → IsManager m
      → (t : SnapshotManager Op S) × IsReady t × (prepare c part m ≡ (ok tt, t))
  unfolding prepare
  prepare-IsReady m stores h = elim h.start [
    | inl q ↦
        let (t, ready, ran) = retrieve-IsReady m stores h.shows q h.quiet in
        (t, ready, rw (q, h.quiet, ran) refl)
    | inr (x, q) ↦ (
      m,
      record { shows = h.shows; cached = h.cached; quiet = h.quiet; first = x; starts = q },
      rw (get-size 0 m.snapshots x q) refl,
    )
  ]

  from_base-cached :
      (m : SnapshotManager Op S) (r b : ℕ) (x : Result (Snapshot Op)) (u : Snapshot Op)
      → newest m.snapshots r ≡ some (b, x)
      → (b == r) ≡ true
      → x ≡ ok u
      → from_base c part r m ≡ (ok (some u), m)
  unfolding from_base
  from_base-cached m r b x u e q g = rw (from_base, e, q, g) refl

  from_base-made :
      (m : SnapshotManager Op S) (r b : ℕ) (x : Result (Snapshot Op)) (u w : Snapshot Op) (t : S)
      → newest m.snapshots r ≡ some (b, x)
      → (b == r) ≡ false
      → x ≡ ok u
      → make_snapshot c part r (ok u) m.file ≡ (ok w, t)
      → from_base c part r m ≡ (
        ok (some w),
        record { snapshots = JsMap.set r (ok w) m.snapshots; retrieved = m.retrieved; file = t },
      )
  unfolding from_base
  from_base-made m r b x u w t e q g ran = rw (from_base, e, q, g, ran) refl

  from_base-IsManager :
      (m : SnapshotManager Op S) (r : ℕ)
      → IsReady m
      → r ≤ current
      → (t : SnapshotManager Op S) × (u : Snapshot Op) × At r u
        × IsManager t
        × (from_base c part r m ≡ (ok (some u), t))
  from_base-IsManager m r h k =
      let (b, x, n, e, f) = newest-some m.snapshots h.first r h.starts in
      let (_, u, g, a) = h.cached b x f in
      elim (Bool-cases (b == r)) [
        | inl q ↦
            let z : b ≡ r = ground (arith, q) in
            (
              m,
              u,
              subst (λ i. At i u) z a,
              record {
                shows = h.shows;
                cached = h.cached;
                quiet = h.quiet;
                start = inr (h.first, h.starts);
              },
              from_base-cached m r b x u e q g,
            )
        | inr q ↦
            let y : (r == 0) ≡ false = ground (arith, n, q) in
            let (t, w, shown, made, ran) =
              make_snapshot-eq laws empty_document part p size file log valid v current l m.file b r
                u h.shows a (ground (arith, n, q)) k in
            (
              record {
                snapshots = JsMap.set r (ok w) m.snapshots;
                retrieved = m.retrieved;
                file = t;
              },
              w,
              made,
              record {
                shows = shown;
                cached = set-IsCached m.snapshots r w h.cached k made;
                quiet = h.quiet;
                start = inr (h.first, get-set r 0 (ok w) m.snapshots ∙ rw y h.starts);
              },
              from_base-made m r b x u w t e q g ran,
            )
      ]

  -- For a class that meets the contract, a durable part with valid changes none of which is gone,
  -- whose stored snapshot is what they compose to, if there is one, and a manager whose cache is
  -- right: reading an existing revision gives the snapshot whose contents are all changes up to it
  -- composed at once, and leaves the cache right and the part as it is.
  pub get_snapshot-IsManager :
      (m : SnapshotManager Op S) (r : ℕ)
      → StoresComposed
      → IsManager m
      → r ≤ current
      → (t : SnapshotManager Op S) × (u : Snapshot Op) × At r u
        × IsManager t
        × (get_snapshot c part r m ≡ (ok (some u), t))
  unfolding get_snapshot
  get_snapshot-IsManager m r stores h k =
      let (t, ready, ran) = prepare-IsReady m stores h in
      let (w, u, at, manager, read) = from_base-IsManager t r ready k in
      (w, u, at, manager, rw ran read)
