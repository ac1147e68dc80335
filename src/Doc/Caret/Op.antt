-- ===== src/Doc/Caret/Op.antt =====
-- local-modules/@bayou/doc-common/CaretOp.js, and the methods of Caret.js on operations.
use bayou.Prelude.{
  ℕ, Bool, true, false, ◌&&◌, List, [], ◌∷◌, String, string_eq, nat_eq, ◌==◌, Result, ok, err,
  bad_use, ◌>>=◌, ◌>>◌, guard, if◌then◌else◌,
}
use bayou.Doc.Caret.{
  Caret, Field, last_active, rev_num, index, length, color, author_id, fields, set_field, check_id,
  same_field, equals,
}
use bayou.Ot.Delta.{Delta}
use bayou.Ot.Timestamp

pub data CaretOp : Type 0 where
  add : Caret → CaretOp
  delete : String → CaretOp
  set : String → Field → CaretOp

unfoldable pub op_delete : String → Result CaretOp
op_delete id = do checked ← check_id id; ok (delete checked)

unfoldable pub op_set_field : String → Field → Result CaretOp
op_set_field id field = do checked ← check_id id; ok (set checked field)

-- The caret that an operation is about.
abbrev pub caret_id : CaretOp → String
caret_id (add c) = c.id
caret_id (delete id) = id
caret_id (set id _) = id

abbrev pub is_add : CaretOp → Bool
is_add (add _) = true
is_add _ = false

abbrev pub rough_size : CaretOp → ℕ
rough_size _ = 1

unfoldable pub field_equals : Field → Field → Bool
field_equals (last_active v) (last_active w) = Timestamp.equals v w
field_equals (rev_num v) (rev_num w) = v == w
field_equals (index v) (index w) = v == w
field_equals (length v) (length w) = v == w
field_equals (color v) (color w) = v == w
field_equals (author_id v) (author_id w) = v == w
field_equals _ _ = false

-- `BaseOp.equals()`: the names and the arguments of the payloads.
unfoldable pub op_equals : CaretOp → CaretOp → Bool
unfolding field_equals
op_equals (add c) (add d) = equals c d
op_equals (delete a) (delete b) = a == b
op_equals (set a f) (set b g) = a == b && field_equals f g
op_equals _ _ = false

-- `Caret.compose()`: the fields of the operations are set in their order.
unfoldable pub compose : Caret → Delta CaretOp → Result Caret
compose c [] = ok c
compose c (set id field ∷ ops) = do guard (id == c.id) bad_use; compose (set_field field c) ops
compose c (_ ∷ ops) = err bad_use

-- The loop of `diffFields()`.
unfoldable pub diff_fields : String → List Field → Caret → Result (Delta CaretOp)
diff_fields id [] c = ok []
diff_fields id (f ∷ fs) c = do
  rest ← diff_fields id fs c
  if same_field f c then ok rest else (op_set_field id f >>= λ op. ok (op ∷ rest))

-- `Caret.diff()`
unfoldable pub diff : Caret → Caret → Result (Delta CaretOp)
unfolding diff_fields fields
diff c newer = do
  guard (c.id == newer.id) bad_use
  checked ← check_id c.id
  diff_fields checked (fields newer) c
