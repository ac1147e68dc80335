-- ===== src/Doc/Caret/Snapshot/Laws.antt =====
-- About local-modules/@bayou/doc-common/CaretSnapshot.js, by the carets that a snapshot has.
use bayou.Prelude.{
  ◌≡◌, refl, sym, ◌∙◌, ◌↔◌, true, [], ◌∷◌, Option, none, some, ok, ◌>>=◌, String, string_eq, ◌==◌,
  if◌then◌else◌, arith, Option-cases, Bool-cases, inl, inr,
}
use bayou.JsMap
use bayou.JsMap.{JsMap}
use bayou.JsMap.Keyed.{eval, eval-values}
use bayou.JsMap.Rewrite.{write_all}
use bayou.JsMap.Distinct.{IsDocumentMap, distinct, distinct-IsMapOf, entry_of, has-get}
use bayou.Ot.Delta
use bayou.Ot.Delta.{Delta, is_empty}
use bayou.Ot.Change.{Change, change}
use bayou.Ot.Snapshot.{Snapshot, compose, make, with_rev_num}
use bayou.Doc.Caret.{Caret, check_id, is_id}
use bayou.Doc.Caret.Fields.{op_equals_iff}
use bayou.Doc.Caret.Op.{CaretOp, add, delete, set, caret_id, is_add, op_delete}
use bayou.Doc.Caret.Delta.{impl_is_document, caret_class}
use bayou.Doc.Caret.Delta.Meaning.{act, apply, meaning}
use bayou.Doc.Caret.Delta.Documents.{applies, carets-impl_compose, is_document-eq, stored}
use bayou.Doc.Caret.Snapshot.{
  build, carets, caret_of, get_or_null, same_op, with_caret, without_caret,
}

abbrev pub IsDocument : Snapshot CaretOp → Type 0
IsDocument s = impl_is_document s.contents ≡ true

-- The map of a snapshot.
abbrev pub map_of : Snapshot CaretOp → JsMap String CaretOp
map_of s = write_all caret_id s.contents []

build-write_all :
    (m : JsMap String CaretOp) (d : Delta CaretOp) (ids : JsMap String (Unit {0}))
    → distinct caret_id is_add ids d ≡ true
    → build m d ≡ ok (write_all caret_id d m)
unfolding build write_all distinct
build-write_all m [] ids h = refl
build-write_all m (add c ∷ ops) ids h =
    ground (arith, build-write_all (JsMap.set c.id (add c) m) ops (JsMap.set c.id tt ids))
build-write_all m (delete _ ∷ ops) ids h = absurd (ground arith)
build-write_all m (set _ _ ∷ ops) ids h = absurd (ground arith)

pub carets-eq : (s : Snapshot CaretOp) → IsDocument s → carets s ≡ ok (map_of s)
unfolding carets
carets-eq s h = build-write_all [] s.contents [] (sym (is_document-eq s.contents) ∙ h)

pub map_of-IsDocumentMap :
    (s : Snapshot CaretOp) → IsDocument s → IsDocumentMap caret_id is_add (map_of s)
map_of-IsDocumentMap s h =
    (distinct-IsMapOf caret_id is_add s.contents (sym (is_document-eq s.contents) ∙ h)).document

-- The carets of the contents are those of the map.
pub meaning-stored :
    (s : Snapshot CaretOp) (k : String) → IsDocument s → meaning s.contents k ≡ stored (map_of s) k
meaning-stored s k h =
    let w = distinct-IsMapOf caret_id is_add s.contents (sym (is_document-eq s.contents) ∙ h) in
    rw (w.same) at
      (eval-values caret_id act (map_of s) (λ _. none) k w.document.keyed w.document.unique)

entry_as_add :
    (s : Snapshot CaretOp) (k : String) (o : CaretOp)
    → IsDocument s
    → JsMap.get k (map_of s) ≡ some o
    → (caret_id o ≡ k) × (is_add o ≡ true)
    → caret_of (JsMap.get k (map_of s)) ≡ meaning s.contents k
entry_as_add s k (add c) h q (a, b) = ground (arith, meaning-stored s k h, q)
entry_as_add s k (delete _) h q (a, b) = absurd (ground arith)
entry_as_add s k (set _ _) h q (a, b) = absurd (ground arith)

pub caret_of-eq :
    (s : Snapshot CaretOp) (k : String)
    → IsDocument s
    → caret_of (JsMap.get k (map_of s)) ≡ meaning s.contents k
caret_of-eq s k h = elim (Option-cases (JsMap.get k (map_of s))) [
  | inl q ↦ rw (meaning-stored s k h, q)
  | inr (o, q) ↦
      entry_as_add s k o h q (entry_of caret_id is_add k (map_of s) (map_of-IsDocumentMap s h) q)
]

-- Reading an ID of a document snapshot gives the caret that it has there, or `null`, and what is no ID throws.
pub caret-get_or_null :
    (s : Snapshot CaretOp) (id : String)
    → IsDocument s
    → get_or_null s id ≡ (check_id id >>= λ k. ok (meaning s.contents k))
unfolding get_or_null check_id
caret-get_or_null s id h = ground (arith, carets-eq s h, caret_of-eq s id h)

-- Composing a change onto a document snapshot, where each caret of which it sets a field is there at that
-- point, gives a document snapshot at the change's revision, with what the delta makes of the carets.
pub carets-compose :
    (s : Snapshot CaretOp) (ch : Change CaretOp)
    → IsDocument s
    → applies ch.delta (meaning s.contents) ≡ true
    → (t : Snapshot CaretOp) × (compose caret_class s ch ≡ ok t)
      × IsDocument t
      × (t.rev_num ≡ ch.rev_num)
      × ((k : String) → meaning t.contents k ≡ apply ch.delta (meaning s.contents) k)
unfolding compose with_rev_num make Delta.compose Delta.compose_all Delta.check_result is_empty eval
carets-compose s ch h a = go ch.delta refl
  where
    go :
        (d : Delta CaretOp)
        → ch.delta ≡ d
        → (t : Snapshot CaretOp) × (compose caret_class s ch ≡ ok t)
          × IsDocument t
          × (t.rev_num ≡ ch.rev_num)
          × ((k : String) → meaning t.contents k ≡ apply ch.delta (meaning s.contents) k)
    go [] e = (
      record { rev_num = ch.rev_num; contents = s.contents },
      rw (e, h) (ground (arith, e, h)),
      h,
      refl,
      λ k. rw e,
    )
    go (o ∷ os) e =
        let (r, p, q, m) = carets-impl_compose s.contents ch.delta h a in
        (record { rev_num = ch.rev_num; contents = r }, ground (arith, e, h, p, q), q, refl, m)

pub same_op_iff : (o : CaretOp) (x : Option CaretOp) → (same_op o x ≡ true) ↔ (x ≡ some o)
same_op_iff o none = ground arith
same_op_iff o (some p) = ground (arith, op_equals_iff o p)

-- Setting a caret of a document snapshot gives a document snapshot that differs at that ID alone.
pub with_caret-meaning :
    (s : Snapshot CaretOp) (c : Caret)
    → IsDocument s
    → (t : Snapshot CaretOp) × (with_caret s c ≡ ok t)
      × IsDocument t
      × (t.rev_num ≡ s.rev_num)
      × ((k : String) → meaning t.contents k ≡ (if c.id == k then some c else meaning s.contents k))
unfolding with_caret eval applies
with_caret-meaning s c h =
    let (t, e, d, n, m) = carets-compose s (change s.rev_num (add c ∷ [])) h refl in
    elim (Bool-cases (same_op (add c) (JsMap.get c.id (map_of s)))) [
      | inl q ↦ (
        s,
        rw (carets-eq s h) (rw q),
        h,
        refl,
        λ k.
            ground
              (arith, caret_of-eq s c.id h, (same_op_iff (add c) _).0 q, string_eq.beq_iff c.id k),
      )
      | inr q ↦ (t, rw (carets-eq s h) (rw q e), d, n, m)
    ]

-- Removing a caret, by an ID, from a document snapshot gives one that lacks it and else has what it had.
pub without_caret-meaning :
    (s : Snapshot CaretOp) (id : String)
    → IsDocument s
    → is_id id ≡ true
    → (t : Snapshot CaretOp) × (without_caret s id ≡ ok t)
      × IsDocument t
      × (t.rev_num ≡ s.rev_num)
      × ((k : String) → meaning t.contents k ≡ (if id == k then none else meaning s.contents k))
unfolding without_caret op_delete check_id eval applies
without_caret-meaning s id h i =
    let (t, e, d, n, m) = carets-compose s (change s.rev_num (delete id ∷ [])) h refl in
    elim (Bool-cases (JsMap.has id (map_of s))) [
      | inl q ↦ (t, rw (i, carets-eq s h) (rw i (rw q e)), d, n, m)
      | inr q ↦ (
        s,
        rw (i, carets-eq s h) (rw i (rw q)),
        h,
        refl,
        λ k.
            ground (arith, meaning-stored s id h, has-get id (map_of s), string_eq.beq_iff id k, q),
      )
    ]
