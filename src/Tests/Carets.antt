-- ===== src/Tests/Carets.antt =====
-- local-modules/@bayou/doc-common/{Caret,CaretDelta,CaretSnapshot}.js at concrete carets.
use bayou.Prelude.{
  Bool-cases, inl, inr, subst, arith, ◌==◌, string_eq, ℕ, ◌⊎◌, ◌≡◌, refl, true, false, Option, some,
  none, [], ◌∷◌, ok, String,
}
use bayou.Ot.Timestamp.{
  Timestamp, add_msec, add_usec, split_usecs, make, compare_to, equals as same_time,
}
use bayou.JsMap
use bayou.JsMap.Keyed.{eval}
use bayou.JsMap.Grouped.{concat}
use bayou.JsMap.Rewrite.{write_all}
use bayou.Ot.Delta
use bayou.Ot.Delta.{Delta, is_empty}
use bayou.Ot.Change.{Change, with_timestamp}
use bayou.Ot.Snapshot
use bayou.Ot.Snapshot.{Snapshot}
use bayou.Doc.Caret.{Caret, key, is_id, id_chars, index, length, check_id, equals as same_caret}
use bayou.Doc.Caret.Op.{CaretOp, add, delete, set, op_equals, op_delete}
use bayou.Doc.Caret.Delta.{impl_compose, impl_is_document, is_document_from, caret_class}
use bayou.Doc.Caret.Delta.Meaning.{apply, meaning}
use bayou.Doc.Caret.Delta.Laws.{caret-impl_compose}
use bayou.Doc.Caret.Delta.Documents.{applies, carets-impl_compose}
use bayou.Doc.Caret.Snapshot.{
  diff, equals, entries, without_caret, carets, build, impl_diff_as_delta, changed_ops, change_ops,
  removed_ops,
}
use bayou.Doc.Caret.Snapshot.Laws.{map_of}
use bayou.Doc.Caret.Snapshot.Changes.{HasIds}
use bayou.Doc.Caret.Snapshot.Diff.{caret_diff-equals}
use bayou.DocServer.CaretControl.{is_idle, remove_idle, idle_change}
use bayou.DocServer.CaretControl.Idle.{is_stale, still_fresh, HasTimes, idle_change-IsActive}
use bayou.Ot.Timestamp.Laws as Valid

abbrev caret : String → ℕ → ℕ → Caret
caret id at len = record {
  id = id;
  last_active = record { secs = 1500000000; usecs = 0 };
  rev_num = 1;
  index = at;
  length = len;
  color = "#ffaabb";
  author_id = "author";
}

abbrev first_id : String
first_id = "cr-abc12"

abbrev second_id : String
second_id = "cr-zzz99"

abbrev older_ops : Delta CaretOp
older_ops = add (caret first_id 3 0) ∷ add (caret second_id 7 1) ∷ []

abbrev newer_ops : Delta CaretOp
newer_ops = add (caret first_id 4 2) ∷ []

abbrev moves : Delta CaretOp
moves = set first_id (index 4) ∷ set first_id (length 2) ∷ []

abbrev moves_again : Delta CaretOp
moves_again = set first_id (index 9) ∷ delete second_id ∷ []

first_is_id : is_id first_id ≡ true
unfolding is_id id_chars
first_is_id = refl

older_document : impl_is_document older_ops ≡ true
unfolding impl_is_document is_document_from JsMap.has JsMap.set
older_document = refl

newer_document : impl_is_document newer_ops ≡ true
unfolding impl_is_document is_document_from JsMap.has JsMap.set
newer_document = refl

moves_apply : applies moves (meaning older_ops) ≡ true
unfolding applies eval
moves_apply = refl

abbrev older : Snapshot CaretOp
older = record { rev_num = 3; contents = older_ops }

abbrev newer : Snapshot CaretOp
newer = record { rev_num = 5; contents = newer_ops }

older_ids : HasIds (map_of older)
unfolding write_all JsMap.set is_id id_chars
older_ids = (refl, (refl, tt))

caret-impl_compose_example :
    (r : Delta CaretOp) × (impl_compose moves moves_again false ≡ ok r)
    × ((s : String → Option Caret) (k : String) → apply r s k ≡ apply moves_again (apply moves s) k)
caret-impl_compose_example = caret-impl_compose moves moves_again

carets-impl_compose_example :
    (r : Delta CaretOp) × (impl_compose older_ops moves true ≡ ok r)
    × (impl_is_document r ≡ true)
    × ((k : String) → meaning r k ≡ apply moves (meaning older_ops) k)
carets-impl_compose_example = carets-impl_compose older_ops moves older_document moves_apply

caret_diff-equals_example :
    (ch : Change CaretOp) × (r : Snapshot CaretOp) × (diff older newer ≡ ok ch)
    × (Snapshot.compose caret_class older ch ≡ ok r)
    × (equals r newer ≡ ok true)
caret_diff-equals_example = caret_diff-equals older newer older_document newer_document older_ids

-- The last of two settings of a field is kept, in the place of the first.
moves-moves_again :
    impl_compose moves moves_again false
    ≡ ok (set first_id (index 9) ∷ set first_id (length 2) ∷ delete second_id ∷ [])
unfolding impl_compose JsMap.get JsMap.set key concat
moves-moves_again = refl

abbrev later : Timestamp
later = record { secs = 1500000400; usecs = 0 }

later-IsValid : Valid.IsValid later
later-IsValid = record { from = omega arith; until = omega arith; part = omega arith }

-- Two carets, the second of which was active less than five minutes before.
abbrev fresh : Caret
fresh = record (caret second_id 7 1) { last_active = record { secs = 1500000300; usecs = 0 } }

abbrev mixed : Snapshot CaretOp
mixed = record { rev_num = 3; contents = add (caret first_id 3 0) ∷ add fresh ∷ [] }

mixed_document : impl_is_document mixed.contents ≡ true
unfolding impl_is_document is_document_from JsMap.has JsMap.set
mixed_document = refl

mixed_ids : HasIds (map_of mixed)
unfolding write_all JsMap.set is_id id_chars
mixed_ids = (refl, (refl, tt))

abbrev At : Caret → Type 0
At c = Valid.IsValid c.last_active

mixed_times : HasTimes mixed
unfolding eval
mixed_times k c h = elim (Bool-cases (second_id == k)) [
  | inl q ↦
      let e : fresh ≡ c = ground (arith, q, h) in
      subst At e (record { from = omega arith; until = omega arith; part = omega arith })
  | inr q ↦ elim (Bool-cases (first_id == k)) [
    | inl r ↦
        let e : caret first_id 3 0 ≡ c = ground (arith, q, r, h) in
        subst At e (record { from = omega arith; until = omega arith; part = omega arith })
    | inr r ↦ absurd (ground (arith, q, r, h))
  ]
]

idle_change-IsActive_example :
    ((idle_change later mixed ≡ ok none)
      × ((k : String) (c : Caret) → meaning mixed.contents k ≡ some c → is_stale later c ≡ false))
    ⊎ ((ch : Change CaretOp) × (r : Snapshot CaretOp) × (idle_change later mixed ≡ ok (some ch))
        × ((k : String) × (c : Caret) × (meaning mixed.contents k ≡ some c)
            × (is_stale later c ≡ true))
        × (ch.timestamp ≡ some later)
        × (Snapshot.compose caret_class mixed ch ≡ ok r)
        × (impl_is_document r.contents ≡ true)
        × (r.rev_num ≡ 4)
        × ((k : String) → meaning r.contents k ≡ still_fresh later (meaning mixed.contents k)))
idle_change-IsActive_example =
    idle_change-IsActive later mixed mixed_document mixed_ids mixed_times later-IsValid
      (omega arith)

-- The caret that is idle goes, and the other stays.
mixed_change :
    idle_change later mixed
    ≡ ok (
        some (record {
          rev_num = 4;
          delta = delete first_id ∷ [];
          timestamp = some later;
          author_id = none;
        }))
unfolding idle_change remove_idle is_idle add_msec add_usec split_usecs make compare_to entries
    without_caret carets build Snapshot.compose Snapshot.with_rev_num Snapshot.make is_empty
    Delta.compose Delta.compose_all diff impl_diff_as_delta changed_ops change_ops removed_ops
    op_equals check_id is_id id_chars op_delete impl_compose impl_is_document is_document_from
    JsMap.has JsMap.set JsMap.get JsMap.delete concat Snapshot.diff Delta.equals same_caret
    same_time with_timestamp
mixed_change = refl
