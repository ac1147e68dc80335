-- ===== src/Doc/Caret/Snapshot.antt =====
-- local-modules/@bayou/doc-common/CaretSnapshot.js. The map that the constructor makes of the
-- contents is computed from them where it is read.
pub mod Laws
pub mod Changes
pub mod Diff
use bayou.Prelude.{
  ℕ, Bool, true, false, ◌&&◌, Option, none, some, List, [], ◌∷◌, ◌++◌, String, string_eq, nat_eq,
  Result, ok, err, wtf, bad_use, type_error, ◌>>=◌, ◌==◌, length, if◌then◌else◌,
}
use bayou.JsMap
use bayou.JsMap.{JsMap}
use bayou.Ot.Delta.{Delta}
use bayou.Ot.Change.{Change, change}
use bayou.Ot.Snapshot
use bayou.Ot.Snapshot.{Snapshot}
use bayou.Doc.Caret.{Caret, check_id}
use bayou.Doc.Caret.Op
use bayou.Doc.Caret.Op.{CaretOp, add, delete, op_equals, op_delete}
use bayou.Doc.Caret.Delta.{caret_class}

-- The loop of the constructor.
unfoldable pub build : JsMap String CaretOp → Delta CaretOp → Result (JsMap String CaretOp)
build m [] = ok m
build m (add c ∷ ops) = build (JsMap.set c.id (add c) m) ops
build m (_ ∷ ops) = err wtf

unfoldable pub carets : Snapshot CaretOp → Result (JsMap String CaretOp)
unfolding build
carets s = build [] s.contents

abbrev pub size : Snapshot CaretOp → ℕ
size s = length s.contents

-- The carets of the contents, which `entries()` gives with their IDs.
unfoldable pub entries : Delta CaretOp → Result (List Caret)
entries [] = ok []
entries (add c ∷ ops) = do rest ← entries ops; ok (c ∷ rest)
entries (_ ∷ ops) = err type_error

-- `found ? found.props.caret : null`
abbrev pub caret_of : Option CaretOp → Option Caret
caret_of (some (add c)) = some c
caret_of _ = none

unfoldable pub get_or_null : Snapshot CaretOp → String → Result (Option Caret)
unfolding carets
get_or_null s id = do checked ← check_id id; m ← carets s; ok (caret_of (JsMap.get checked m))

unfoldable pub get : Snapshot CaretOp → String → Result Caret
unfolding get_or_null
get s id = do found ← get_or_null s id; elim found [ some c ↦ ok c | none ↦ err bad_use ]

unfoldable pub has : Snapshot CaretOp → String → Result Bool
unfolding get_or_null
has s id = do found ← get_or_null s id; ok (elim found [ some _ ↦ true | none ↦ false ])

-- `op.equals(x)`, where `x` may be `undefined`.
abbrev pub same_op : CaretOp → Option CaretOp → Bool
same_op op none = false
same_op op (some o) = op_equals op o

unfoldable pub with_caret : Snapshot CaretOp → Caret → Result (Snapshot CaretOp)
unfolding carets
with_caret s c = do
  m ← carets s
  if same_op (add c) (JsMap.get c.id m)
      then ok s
      else Snapshot.compose caret_class s (change s.rev_num (add c ∷ []))

-- With an ID. Given a caret, the source takes its ID.
unfoldable pub without_caret : Snapshot CaretOp → String → Result (Snapshot CaretOp)
unfolding carets
without_caret s id = do
  checked ← check_id id
  m ← carets s
  op ← op_delete checked
  if JsMap.has checked m then Snapshot.compose caret_class s (change s.rev_num (op ∷ [])) else ok s

-- `already.props.caret.diff(caretOp.props.caret)`
abbrev pub diff_ops : CaretOp → CaretOp → Result (Delta CaretOp)
diff_ops (add c) (add d) = Op.diff c d
diff_ops _ _ = err type_error

-- What the first loop of `_impl_diffAsDelta()` has for a caret of the newer snapshot.
unfoldable pub change_ops : JsMap String CaretOp → String → CaretOp → Result (Delta CaretOp)
change_ops older id op = elim (JsMap.get id older) [
  | none ↦ ok (op ∷ [])
  | some already ↦ if op_equals already op then ok [] else diff_ops already op
]

unfoldable pub changed_ops : JsMap String CaretOp → JsMap String CaretOp → Result (Delta CaretOp)
unfolding change_ops
changed_ops older [] = ok []
changed_ops older ((id, op) ∷ newer) = do
  ops ← change_ops older id op
  rest ← changed_ops older newer
  ok (ops ++ rest)

-- The second loop: what is gone.
unfoldable pub removed_ops : JsMap String CaretOp → JsMap String CaretOp → Result (Delta CaretOp)
removed_ops newer [] = ok []
removed_ops newer ((id, _) ∷ older) = elim (JsMap.get id newer) [
  | some _ ↦ removed_ops newer older
  | none ↦ do op ← op_delete id; rest ← removed_ops newer older; ok (op ∷ rest)
]

unfoldable pub impl_diff_as_delta : Snapshot CaretOp → Snapshot CaretOp → Result (Delta CaretOp)
unfolding carets changed_ops removed_ops
impl_diff_as_delta s newer = do
  this_carets ← carets s
  newer_carets ← carets newer
  changed ← changed_ops this_carets newer_carets
  removed ← removed_ops newer_carets this_carets
  ok (changed ++ removed)

unfoldable pub diff : Snapshot CaretOp → Snapshot CaretOp → Result (Change CaretOp)
unfolding impl_diff_as_delta
diff s newer = Snapshot.diff caret_class impl_diff_as_delta s newer

-- The loop of `equals()`.
unfoldable pub all_same : JsMap String CaretOp → JsMap String CaretOp → Bool
all_same [] other = true
all_same ((id, op) ∷ m) other = if same_op op (JsMap.get id other) then all_same m other else false

unfoldable pub equals : Snapshot CaretOp → Snapshot CaretOp → Result Bool
unfolding carets all_same
equals s t = do
  this_carets ← carets s
  other_carets ← carets t
  ok (
      (s.rev_num == t.rev_num)
      && (JsMap.size this_carets == JsMap.size other_carets)
      && all_same this_carets other_carets)
