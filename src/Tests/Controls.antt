-- ===== src/Tests/Controls.antt =====
-- local-modules/@bayou/doc-server at a concrete part of a document, in a file that is kept locally.
use Prim.Native.String.{◌++◌ as str_append}
use text.Mathlib.Text.{starts_with}
use text.Mathlib.TextPositions.{starts_with-append}
use bayou.Prelude.{
  ℕ, zero, suc, ◌+◌, ◌++◌, beq_ne, ◌≤◌, ◌≡◌, refl, ◌∙◌, ap, true, false, Option, none, some, List,
  [], ◌∷◌, String, ok, err, nat_eq, string_eq, arith, inl, ◌==◌, All, timed_out, take, drop, ◌-◌,
  if◌then◌else◌,
}
use bayou.Prelude.Int.{pos}
use bayou.Ot.Delta
use bayou.Ot.Delta.{Delta}
use bayou.Ot.Change.{Change, change, first}
use bayou.Ot.Snapshot.{Snapshot, empty}
use bayou.Ot.Snapshot.Chunks.{deltas}
use bayou.Doc.Property.Op.{PropertyOp, set}
use bayou.FileStore.StoragePath
use bayou.FileStore.StoragePath.Decimals.{get_index-indexed}
use bayou.FileStore.StoragePath.Index.{get_index}
use bayou.FileStore.StoragePath.Join.{split-join, IsComponent}
use bayou.FileStore.StoragePath.Parts.{join, split}
use bayou.FileStore.Op.{FileOp, write_path}
use bayou.FileStore.Delta.{file_class}
use bayou.FileStore.BaseFile.{Call}
use bayou.DocServer.BaseControl.{ChangeRange, get_composed_changes}
use bayou.DocServer.BaseControl.Composition.{get_composed_changes-eq}
use bayou.DocServer.Part.{
  other_value, impl_init_ops, stored_snapshot_in, path_for_change, change_path_prefix,
  revision_number_path,
}
use bayou.DocServer.Part.Calls.{append_seen, append_change, get_change_range, write_stored_snapshot}
use bayou.DocServer.Part.Log.{IsLog, Holds}
use bayou.DocServer.Part.Init.{init_ops, init_ops-IsLog}
use bayou.DocServer.Part.Listing.{sort, text_leb}
use bayou.DocServer.Part.Append.{store_ops, stored-IsLog}
use bayou.FileStore.Delta.Meaning.{apply}
use bayou.FileStore.Snapshot.Laws.{blob_at-compose}
use bayou.DocServer.Part.Background.{Reads, spared}
use bayou.DocServer.Part.Race.{append_seen-Holds, append_change-Holds}
use bayou.DocServer.Part.Ranges.{get_change_range-eq}
use bayou.DocServer.Part.Stored.{Stores, write_stored_snapshot-Holds}
use bayou.DocServer.SnapshotManager.{SnapshotManager, new, prepare, get_snapshot}
use bayou.DocServer.SnapshotManager.Cache.{IsAt}
use bayou.DocServer.SnapshotManager.Serving.{read_by, manager-Reads}
use bayou.DocServer.SnapshotManager.Reading.{IsManager, get_snapshot-IsManager}
use bayou.Doc.Property.Delta.{
  impl_is_document as properties_are, is_document_from as properties_from,
}
use bayou.Doc.Property.Delta.{property_class}
use bayou.Ot.Delta.{is_empty}
use bayou.Syntax.{all_word}
use bayou.Doc.Property.Delta.Laws.{property_laws}
use bayou.JsMap
use bayou.Ot.Snapshot
use bayou.Tests.Values.{value_eq}
use bayou.Tests.Parts.{
  Stored, hash, FileChange, State, size, part, part-IsPart, brief, brief-IsPart, empty_document,
  laws, state_of, state, started_as, started,
}

-- What the control of properties reads, by a manager with an empty cache.
abbrev impl_get_snapshot : ℕ → Call State (Option (Snapshot (PropertyOp ℕ)))
impl_get_snapshot = read_by property_class part part-IsPart size laws (new state)

reads : Reads part part-IsPart size laws impl_get_snapshot
unfolding JsMap.get
reads =
    manager-Reads property_class part part-IsPart size laws (new state)
      λ i x h. absurd (ground (arith, h))

abbrev edit : Change (PropertyOp ℕ)
edit = change 1 (set (record { name = "a"; value = 3 }) ∷ [])

append_change-Holds_example :
    (t : State) × (o : ℕ) × (o ≤ spared part part-IsPart size laws impl_get_snapshot 1 0)
    × Holds part size laws t (first ∷ edit ∷ []) 1 o
    × (append_change part impl_get_snapshot edit state ≡ (ok true, t))
unfolding is_empty
append_change-Holds_example =
    append_change-Holds part part-IsPart size laws impl_get_snapshot reads edit state (first ∷ []) 0
      0 started.0

-- A change of the file by another part of the document.
abbrev body_path : String
body_path = "/body/x"

abbrev of_body : FileChange
of_body = change (started.0.view.rev_num + 1) (write_path body_path other_value ∷ [])

elsewhere : (i : ℕ) → (body_path == path_for_change part i) ≡ false
unfolding path_for_change change_path_prefix StoragePath.indexed
elsewhere i = beq_ne body_path (path_for_change part i) λ e.
    let t = str_append "/" (StoragePath.decimal i) in
    let h : starts_with body_path "/prop/change" ≡ true =
      ap (λ u. starts_with u "/prop/change") e ∙ starts_with-append "/prop/change" t in
    absurd (ground (arith, h))

not_revision : (body_path == revision_number_path part) ≡ false
unfolding revision_number_path
not_revision = refl

-- The file behind that change, which has the part as it was.
raced :
    (t : State) × (w : Snapshot (FileOp Stored)) × laws.Shows t w
    × IsLog part w (first ∷ []) 0 0
    × (w.rev_num ≡ suc started.0.view.rev_num)
unfolding apply
raced =
    let l = started.0.is_log in
    let (t, w, shown, composed, ran) =
      laws.append state started.0.view of_body started.0.shows (tt, tt) (omega arith) in
    let (w', f, d, n, m) = blob_at-compose hash size started.0.view of_body l.document (tt, tt) in
    let same : w' ≡ w = cc in
    (
      t,
      w,
      shown,
      record {
        document = rw same at d;
        count = l.count;
        numbered = l.numbered;
        kept = l.kept;
        revision = rw same at (m (revision_number_path part)) ∙ rw not_revision l.revision;
        changes = λ i. rw same at (m (path_for_change part i)) ∙ rw (elsewhere i) (l.changes i);
      },
      rw same at n ∙ omega arith,
    )

-- The append of a change whose reading that change of the body has overtaken.
append_seen-Holds_example :
    (t : State) × (o : ℕ) × (o
      ≤ spared part part-IsPart size laws impl_get_snapshot
          (if started.0.view.rev_num == raced.1.rev_num then 1 else 0)
          0)
    × Holds part size laws t
        (if started.0.view.rev_num == raced.1.rev_num then first ∷ edit ∷ [] else first ∷ [])
        (if started.0.view.rev_num == raced.1.rev_num then 1 else 0)
        o
    × (append_seen part impl_get_snapshot edit
          (store_ops part part-IsPart edit)
          started.0.view
          raced.0
        ≡ (ok (started.0.view.rev_num == raced.1.rev_num), t))
append_seen-Holds_example =
    append_seen-Holds part part-IsPart size laws impl_get_snapshot reads edit raced.0 started.0.view
      raced.1 (first ∷ []) (first ∷ []) 0 0 0 0 raced.2 raced.3 started.0.is_log
      (omega (arith, raced.4)) (λ h. absurd (omega (arith, h, raced.4)))

-- It has lost the race.
overtaken : (started.0.view.rev_num == raced.1.rev_num) ≡ false
overtaken = ground (arith, raced.4)

get_change_range-eq_example :
    (t : State) × laws.Shows t started.0.view
    × (get_change_range part 0 1 false state ≡ (ok (first ∷ []), t))
get_change_range-eq_example =
    get_change_range-eq part part-IsPart size laws state started.0.view (first ∷ []) 0 0 0 1 false
      started.0.shows started.0.is_log

edit_at : ℕ → Change (PropertyOp ℕ)
edit_at n = change n (set (record { name = "a"; value = n }) ∷ [])

edits_to : ℕ → List (Change (PropertyOp ℕ))
edits_to zero = first ∷ []
edits_to (suc n) = edits_to n ++ (edit_at (suc n) ∷ [])

-- An ephemeral part with many changes, all of which are there.
grown : (n : ℕ) → (s : State) × Holds brief size laws s (edits_to n) n 0
unfolding edits_to edit_at
grown zero = (state_of true, (started_as true).0)
grown (suc n) =
    let (s, h) = grown n in
    let ops = store_ops brief brief-IsPart (edit_at (suc n)) in
    let (t, w, shown, composed, ran) =
      laws.append s h.view (change (h.view.rev_num + 1) ops) h.shows (tt, (tt, tt)) (omega arith) in
    (
      t,
      record {
        view = w;
        shows = shown;
        is_log =
            stored-IsLog brief brief-IsPart h.view (edits_to n) n 0 h.is_log size (edit_at (suc n))
              w (h.view.rev_num + 1) refl composed;
      },
    )

abbrev newest_snapshot : Snapshot (PropertyOp ℕ)
newest_snapshot = record {
  rev_num = 1003;
  contents = set (record { name = "a"; value = 1003 }) ∷ [];
}

-- The three first changes go.
write_stored_snapshot-Holds_example :
    (t : State) × Holds brief size laws t (edits_to 1003) 1003 3
    × Stores brief brief-IsPart size laws t newest_snapshot
    × (write_stored_snapshot brief newest_snapshot (grown 1003).0 ≡ (ok tt, t))
write_stored_snapshot-Holds_example =
    write_stored_snapshot-Holds brief brief-IsPart size laws newest_snapshot (grown 1003).0
      (edits_to 1003) 1003 0 (grown 1003).1 (omega arith)

init_ops-IsLog_example :
    (w : Snapshot (FileOp Stored)) × (impl_init_ops part ≡ ok (init_ops part part-IsPart))
    × (Snapshot.compose (file_class hash size) empty (change 1 (init_ops part part-IsPart)) ≡ ok w)
    × IsLog part w (first ∷ []) 0 0
    × (stored_snapshot_in part w ≡ ok none)
init_ops-IsLog_example = init_ops-IsLog part part-IsPart size empty 1 empty_document

empty_properties : (property_class {V = ℕ}).impl_is_document [] ≡ true
unfolding properties_are properties_from
empty_properties = refl

abbrev At : ℕ → Snapshot (PropertyOp ℕ) → Type 0
At = IsAt property_laws empty_properties part part-IsPart size laws (first ∷ []) (tt, tt)

new-IsManager :
    IsManager property_laws empty_properties part part-IsPart size laws
      (first ∷ [])
      (tt, tt)
      started.0.view
      0
      started.0.is_log
      (new state)
unfolding JsMap.get
new-IsManager = record {
  shows = started.0.shows;
  cached = λ i x h. absurd (ground arith);
  quiet = refl;
  start = inl refl;
}

get_snapshot-IsManager_example :
    (t : SnapshotManager (PropertyOp ℕ) State) × (u : Snapshot (PropertyOp ℕ)) × At 0 u
    × IsManager property_laws empty_properties part part-IsPart size laws
        (first ∷ [])
        (tt, tt)
        started.0.view
        0
        started.0.is_log
        t
    × (get_snapshot property_class part 0 (new state) ≡ (ok (some u), t))
get_snapshot-IsManager_example =
    get_snapshot-IsManager property_laws empty_properties part part-IsPart size laws (first ∷ [])
      (tt, tt) started.0.view 0 started.0.is_log (new state) 0 (inl started.1) new-IsManager
      (omega arith)

words : All IsComponent ("a" ∷ "b_1" ∷ [])
unfolding all_word
words = ((refl, refl), ((refl, refl), tt))

a_is_path : StoragePath.is_instance "/a" ≡ true
unfolding StoragePath.is_instance StoragePath.components
a_is_path = refl

split-join_example :
    (path : String) × (join ("a" ∷ "b_1" ∷ []) ≡ ok path)
    × (StoragePath.is_instance path ≡ true)
    × (split path ≡ ok ("a" ∷ "b_1" ∷ []))
split-join_example = split-join "a" ("b_1" ∷ []) words

get_index-indexed_example : get_index (StoragePath.indexed "/a" 42) ≡ ok (pos 42)
get_index-indexed_example = get_index-indexed "/a" 42 a_is_path (omega arith)

abbrev edits : List (Change (PropertyOp ℕ))
edits = first ∷ edit ∷ []

abbrev range_of : ChangeRange (PropertyOp ℕ) (List (Change (PropertyOp ℕ)))
range_of i j l = (ok (take (j - i) (drop i l)), l)

get_composed_changes-eq_example :
    (t : List (Change (PropertyOp ℕ))) × (t ≡ edits)
    × (get_composed_changes property_class range_of [] 0 2 true edits
        ≡ (Delta.compose_all property_class [] (deltas edits) true, t))
get_composed_changes-eq_example =
    get_composed_changes-eq property_laws edits (tt, (tt, tt)) range_of (λ s. s ≡ edits)
      (λ s i j h _ _ _. (s, h, ap (λ l. (ok (take (j - i) (drop i l)), s)) h)) [] 0 2 edits tt
      empty_properties (omega arith) (omega arith) refl

-- The changes that `listChangeRange()` finds, behind the ninth.
sort_by_text : sort (pos 9 ∷ pos 10 ∷ pos 11 ∷ []) ≡ pos 10 ∷ pos 11 ∷ pos 9 ∷ []
unfolding sort text_leb StoragePath.decimal StoragePath.decimal_onto
sort_by_text = refl

-- A first read that fails: every later one fails with its error, whatever the file has then.
rejected_for_ever :
    get_snapshot property_class part 0
      (record { snapshots = []; retrieved = some timed_out; file = state })
    ≡ (err timed_out, record { snapshots = []; retrieved = some timed_out; file = state })
unfolding get_snapshot prepare
rejected_for_ever = refl
