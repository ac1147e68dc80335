-- ===== src/Doc/Caret/Difference.antt =====
-- About `diff()` and `compose()` of local-modules/@bayou/doc-common/Caret.js.
use bayou.Prelude.{
  ◌≡◌, refl, sym, ◌∙◌, ap, true, List, [], ◌∷◌, map, String, string_eq, nat_eq, ok, arith,
  if◌then◌else◌, Bool-cases, inl, inr,
}
use bayou.Doc.Caret.{
  Caret, Field, last_active, rev_num, index, length, color, author_id, fields, set_field, check_id,
  is_id, same_field,
}
use bayou.Doc.Caret.Op.{CaretOp, set, compose, diff_fields, diff, op_set_field}
use bayou.Doc.Caret.Fields.{set_field-id}
use bayou.Ot.Delta.{Delta}
use bayou.Ot.Timestamp.Laws.{equals_iff}

-- The fields that differ from the caret's.
abbrev pub changed : List Field → Caret → List Field
changed [] c = []
changed (f ∷ fs) c = let rest = changed fs c in if same_field f c then rest else f ∷ rest

abbrev pub set_all : List Field → Caret → Caret
set_all [] c = c
set_all (f ∷ fs) c = set_all fs (set_field f c)

abbrev pub sets : String → List Field → Delta CaretOp
sets id fs = map (set id) fs

diff_fields-eq :
    (id : String) (fs : List Field) (c : Caret)
    → is_id id ≡ true
    → diff_fields id fs c ≡ ok (sets id (changed fs c))
unfolding diff_fields op_set_field check_id
diff_fields-eq id [] c h = refl
diff_fields-eq id (f ∷ fs) c h = ground (arith, diff_fields-eq id fs c h, h)

compose-sets :
    (fs : List Field) (c : Caret) (id : String)
    → id ≡ c.id
    → compose c (sets id fs) ≡ ok (set_all fs c)
unfolding compose
compose-sets [] c id e = refl
compose-sets (f ∷ fs) c id e = ground (
  arith,
  compose-sets fs (set_field f c) id (e ∙ sym (set_field-id f c)),
  string_eq.beq_iff id c.id,
)

set_field_same : (f : Field) (c : Caret) → same_field f c ≡ true → set_field f c ≡ c
unfolding same_field set_field
set_field_same (last_active v) c h = ground (arith, equals_iff v c.last_active)
set_field_same (color v) c h = ground (arith, string_eq.beq_iff v c.color)
set_field_same (author_id v) c h = ground (arith, string_eq.beq_iff v c.author_id)
set_field_same f c h = ground arith

-- Where a field is still the first caret's, setting it only if it differs is setting it.
settle :
    (f : Field) (fs : List Field) (c d : Caret)
    → same_field f d ≡ same_field f c
    → set_all (changed (f ∷ fs) c) d ≡ set_all (changed fs c) (set_field f d)
settle f fs c d e = elim (Bool-cases (same_field f c)) [
  | inl p ↦ rw p (ap (set_all (changed fs c)) (sym (set_field_same f d (e ∙ p))))
  | inr p ↦ rw p
]

pub changed-set_all : (c d : Caret) → c.id ≡ d.id → set_all (changed (fields d) c) c ≡ d
unfolding fields set_field same_field
changed-set_all c d e =
    let f1 = last_active d.last_active in
    let f2 = rev_num d.rev_num in
    let f3 = index d.index in
    let f4 = length d.length in
    let f5 = color d.color in
    let f6 = author_id d.author_id in
    let c1 = set_field f1 c in
    let c2 = set_field f2 c1 in
    let c3 = set_field f3 c2 in
    let c4 = set_field f4 c3 in
    let c5 = set_field f5 c4 in
    settle f1 (f2 ∷ f3 ∷ f4 ∷ f5 ∷ f6 ∷ []) c c refl
    ∙ settle f2 (f3 ∷ f4 ∷ f5 ∷ f6 ∷ []) c c1 refl
    ∙ settle f3 (f4 ∷ f5 ∷ f6 ∷ []) c c2 refl
    ∙ settle f4 (f5 ∷ f6 ∷ []) c c3 refl
    ∙ settle f5 (f6 ∷ []) c c4 refl
    ∙ settle f6 [] c c5 refl
    ∙ ground (arith, e)

-- The diff.
pub diff-sets :
    (c d : Caret)
    → c.id ≡ d.id
    → is_id c.id ≡ true
    → diff c d ≡ ok (sets c.id (changed (fields d) c))
unfolding diff check_id
diff-sets c d e h = ground (arith, diff_fields-eq c.id (fields d) c h, string_eq.beq_iff c.id d.id)

-- For two carets with one valid ID, `diff()` does not throw, and composing its operations onto the
-- older caret gives the newer.
pub caret_diff-compose :
    (c d : Caret)
    → is_id c.id ≡ true
    → c.id ≡ d.id
    → (ops : Delta CaretOp) × (diff c d ≡ ok ops) × (compose c ops ≡ ok d)
caret_diff-compose c d h e = (
  sets c.id (changed (fields d) c),
  diff-sets c d e h,
  compose-sets (changed (fields d) c) c c.id refl ∙ ap ok (changed-set_all c d e),
)
