-- ===== src/Doc/Caret/Fields.antt =====
-- About the fields of a caret of local-modules/@bayou/doc-common/Caret.js.
use bayou.Prelude.{◌≡◌, refl, ◌↔◌, true, false, string_eq, nat_eq, ◌==◌, arith}
use bayou.Doc.Caret.{
  Caret, Field, last_active, rev_num, index, length, color, author_id, key, fields, set_field,
  same_field, all_same, equals,
}
use bayou.Doc.Caret.Op.{CaretOp, set, add, delete, field_equals, op_equals}
use bayou.Ot.Timestamp.Laws.{equals_iff}

pub set_field-same :
    (f g : Field) (c : Caret)
    → (key f == key g) ≡ true
    → set_field f (set_field g c) ≡ set_field f c
unfolding key set_field
set_field-same (last_active _) (last_active _) c h = refl
set_field-same (rev_num _) (rev_num _) c h = refl
set_field-same (index _) (index _) c h = refl
set_field-same (length _) (length _) c h = refl
set_field-same (color _) (color _) c h = refl
set_field-same (author_id _) (author_id _) c h = refl
set_field-same f g c h = absurd (ground arith)

pub set_field-other :
    (f g : Field) (c : Caret)
    → (key f == key g) ≡ false
    → set_field f (set_field g c) ≡ set_field g (set_field f c)
unfolding key set_field
set_field-other (last_active _) (last_active _) c h = absurd (ground arith)
set_field-other (rev_num _) (rev_num _) c h = absurd (ground arith)
set_field-other (index _) (index _) c h = absurd (ground arith)
set_field-other (length _) (length _) c h = absurd (ground arith)
set_field-other (color _) (color _) c h = absurd (ground arith)
set_field-other (author_id _) (author_id _) c h = absurd (ground arith)
set_field-other f g c h = refl

pub set_field-id : (f : Field) (c : Caret) → (set_field f c).id ≡ c.id
unfolding set_field
set_field-id f c = ground arith

pub caret_equals_iff : (c d : Caret) → (equals c d ≡ true) ↔ (c ≡ d)
unfolding equals all_same fields same_field
caret_equals_iff c d = ground (
  arith,
  equals_iff d.last_active c.last_active,
  string_eq.beq_iff c.id d.id,
  string_eq.beq_iff d.color c.color,
  string_eq.beq_iff d.author_id c.author_id,
)

pub field_equals_iff : (f g : Field) → (field_equals f g ≡ true) ↔ (f ≡ g)
unfolding field_equals
field_equals_iff (last_active v) (last_active w) = ground (arith, equals_iff v w)
field_equals_iff (color v) (color w) = ground (arith, string_eq.beq_iff v w)
field_equals_iff (author_id v) (author_id w) = ground (arith, string_eq.beq_iff v w)
field_equals_iff f g = ground arith

pub op_equals_iff : (a b : CaretOp) → (op_equals a b ≡ true) ↔ (a ≡ b)
unfolding op_equals
op_equals_iff (add c) (add d) = ground (arith, caret_equals_iff c d)
op_equals_iff (delete a) (delete b) = ground (arith, string_eq.beq_iff a b)
op_equals_iff (set a f) (set b g) = ground (arith, string_eq.beq_iff a b, field_equals_iff f g)
op_equals_iff a b = ground arith
