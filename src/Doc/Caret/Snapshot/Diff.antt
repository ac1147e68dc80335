-- ===== src/Doc/Caret/Snapshot/Diff.antt =====
-- About `equals()` and `diff()` of local-modules/@bayou/doc-common/CaretSnapshot.js.
use bayou.Prelude.{
  ◌≡◌, refl, sym, ◌∙◌, ap, true, not, ◌&&◌, [], ◌∷◌, ◌++◌, Option, none, some, ok, String,
  string_eq, nat_eq, if◌then◌else◌, arith, Option-cases, Bool-cases, inl, inr,
}
use bayou.JsMap
use bayou.JsMap.{JsMap, Unique}
use bayou.JsMap.Keyed.{eval, eval-append}
use bayou.JsMap.Same.{IsWithin, size_eq}
use bayou.JsMap.Distinct.{IsDocumentMap, entry_of, has-get}
use bayou.Ot.Delta
use bayou.Ot.Delta.{Delta}
use bayou.Ot.Delta.Laws.{eq_of_equals}
use bayou.Ot.Change.{Change, change}
use bayou.Ot.Snapshot.{Snapshot, compose}
use bayou.Ot.Snapshot.Diff.{diff_equal, diff_unequal}
use bayou.Doc.Caret.{Caret}
use bayou.Doc.Caret.Fields.{op_equals_iff}
use bayou.Doc.Caret.Op.{CaretOp, add, delete, set, caret_id, is_add}
use bayou.Doc.Caret.Delta.{caret_class}
use bayou.Doc.Caret.Delta.Meaning.{act, apply, meaning}
use bayou.Doc.Caret.Delta.Documents.{applies, applies-append, stored}
use bayou.Doc.Caret.Snapshot.{same_op, impl_diff_as_delta, diff, all_same, equals}
use bayou.Doc.Caret.Snapshot.Laws.{
  IsDocument, map_of, carets-eq, map_of-IsDocumentMap, meaning-stored, carets-compose, same_op_iff,
}
use bayou.Doc.Caret.Snapshot.Changes.{HasIds, Changed-total, removed_total, Agrees}

as_add : Option Caret → Option CaretOp
as_add none = none
as_add (some c) = some (add c)

map_get_entry :
    (k : String) (m : JsMap String CaretOp) (o : CaretOp)
    → JsMap.get k m ≡ some o
    → is_add o ≡ true
    → JsMap.get k m ≡ as_add (stored m k)
unfolding as_add
map_get_entry k m (add c) q a = ground (arith, q)
map_get_entry k m (delete _) q a = absurd (ground arith)
map_get_entry k m (set _ _) q a = absurd (ground arith)

map_get :
    (k : String) (m : JsMap String CaretOp)
    → IsDocumentMap caret_id is_add m
    → JsMap.get k m ≡ as_add (stored m k)
unfolding as_add
map_get k m w = elim (Option-cases (JsMap.get k m)) [
  | inl q ↦ rw q
  | inr (o, q) ↦ map_get_entry k m o q (entry_of caret_id is_add k m w q).1
]

IsWithin-all_same : (a b : JsMap String CaretOp) → Unique a → IsWithin a b → all_same a b ≡ true
unfolding all_same JsMap.get
IsWithin-all_same [] b u h = refl
IsWithin-all_same ((j, o) ∷ a) b (f, u) h =
    let here : same_op o (JsMap.get j b) ≡ true =
      (same_op_iff o _).1 (h.apply j o (ground (arith, string_eq.beq_iff j j))) in
    rw here (
      IsWithin-all_same a b u
        (record { apply = λ k p g. h.apply k p (ground (arith, string_eq.beq_iff j k)) }))

-- Snapshots of one revision with the same carets are equal.
pub caret_equals-intro :
    (s t : Snapshot CaretOp)
    → IsDocument s
    → IsDocument t
    → s.rev_num ≡ t.rev_num
    → ((k : String) → meaning s.contents k ≡ meaning t.contents k)
    → equals s t ≡ ok true
unfolding equals
caret_equals-intro s t h g r m =
    let v = map_of-IsDocumentMap s h in
    let w = map_of-IsDocumentMap t g in
    let e = λ (k : String).
      map_get k (map_of s) v
      ∙ ap as_add (sym (meaning-stored s k h) ∙ m k ∙ meaning-stored t k g)
      ∙ sym (map_get k (map_of t) w) in
    let n = size_eq (map_of s) (map_of t) v.unique w.unique e in
    ground (
      arith,
      carets-eq s h,
      carets-eq t g,
      r,
      n,
      IsWithin-all_same (map_of s) (map_of t) v.unique (record { apply = λ k o p. sym (e k) ∙ p }),
    )

joined :
    (s t : Snapshot CaretOp) (k : String)
    → IsDocument s
    → IsDocument t
    → (if JsMap.has k (map_of s) && not (JsMap.has k (map_of t))
        then none
        else (elim (JsMap.get k (map_of t)) [ none ↦ meaning s.contents k | some o ↦ act o none ]))
      ≡ meaning t.contents k
joined s t k h g =
    ground (
      arith,
      meaning-stored s k h,
      meaning-stored t k g,
      has-get k (map_of s),
      has-get k (map_of t),
    )

-- The delta between two snapshots: it can be applied to the older, and makes the newer's carets.
record DeltaOf (s t : Snapshot CaretOp) : Type 0 where
  ops : Delta CaretOp
  runs : impl_diff_as_delta s t ≡ ok ops
  allows : applies ops (meaning s.contents) ≡ true
  makes : (k : String) → apply ops (meaning s.contents) k ≡ meaning t.contents k

delta_of : (s t : Snapshot CaretOp) → IsDocument s → IsDocument t → HasIds (map_of s) → DeltaOf s t
unfolding impl_diff_as_delta
delta_of s t h g n =
    let v = map_of-IsDocumentMap s h in
    let w = map_of-IsDocumentMap t g in
    let c = Changed-total (map_of s) (map_of t) v n w.unique w.keyed w.writes in
    let (r, e, z, m) = removed_total (map_of s) (map_of t) n in
    let a : Agrees (map_of s) (map_of t) (meaning s.contents) = λ k o q. meaning-stored s k h in
    record {
      ops = c.ops ++ r;
      runs = ground (arith, carets-eq s h, carets-eq t g, c.runs, e);
      allows =
          applies-append c.ops r (meaning s.contents)
          ∙ ground (arith, c.allows (meaning s.contents) a, z (apply c.ops (meaning s.contents)));
      makes = λ k.
          eval-append caret_id act c.ops r (meaning s.contents) k
          ∙ m (apply c.ops (meaning s.contents)) k
          ∙ rw (c.applied (meaning s.contents) k a) (joined s t k h g);
    }

-- The change between two document snapshots, composed onto the older, makes the newer's carets at its
-- revision.
pub compose-caret_diff :
    (s t : Snapshot CaretOp)
    → IsDocument s
    → IsDocument t
    → HasIds (map_of s)
    → (ch : Change CaretOp) × (r : Snapshot CaretOp) × (diff s t ≡ ok ch)
      × (compose caret_class s ch ≡ ok r)
      × IsDocument r
      × (r.rev_num ≡ t.rev_num)
      × ((k : String) → meaning r.contents k ≡ meaning t.contents k)
unfolding diff eval applies
compose-caret_diff s t h g n = elim (Bool-cases (Delta.equals caret_class s.contents t.contents)) [
  | inl q ↦
      let ch : Change CaretOp = change t.rev_num [] in
      let (r, e, d, n, m) = carets-compose s ch h refl in
      (
        ch,
        r,
        diff_equal caret_class impl_diff_as_delta s t q,
        e,
        d,
        n,
        λ k.
            m k
            ∙ ap (λ (c : Delta CaretOp). meaning c k)
                (eq_of_equals caret_class op_equals_iff s.contents t.contents q),
      )
  | inr q ↦
      let x = delta_of s t h g n in
      let ch : Change CaretOp = change t.rev_num x.ops in
      let (r, f, d, n', m) = carets-compose s ch h x.allows in
      (
        ch,
        r,
        diff_unequal caret_class impl_diff_as_delta s t q x.runs,
        f,
        d,
        n',
        λ k. m k ∙ x.makes k,
      )
]

-- For two document snapshots, the older of which has only caret IDs for its keys, `diff()` does not
-- throw, and its change composed onto the older gives a snapshot that `equals()` the newer.
pub caret_diff-equals :
    (s t : Snapshot CaretOp)
    → IsDocument s
    → IsDocument t
    → HasIds (map_of s)
    → (ch : Change CaretOp) × (r : Snapshot CaretOp) × (diff s t ≡ ok ch)
      × (compose caret_class s ch ≡ ok r)
      × (equals r t ≡ ok true)
caret_diff-equals s t h g n =
    let (ch, r, e, f, d, i, m) = compose-caret_diff s t h g n in
    (ch, r, e, f, caret_equals-intro r t d g i m)
