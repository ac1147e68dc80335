-- ===== src/Doc/Caret/Delta/Laws.antt =====
-- About composing into a delta by local-modules/@bayou/doc-common/CaretDelta.js.
use bayou.Prelude.{
  ◌≡◌, refl, ◌∙◌, ap, false, List, [], ◌∷◌, ◌++◌, Option, some, ok, String, string_eq, ◌==◌,
  if◌then◌else◌, arith, Option-cases, Bool-cases, inl, inr, subst,
}
use bayou.JsMap
use bayou.JsMap.{JsMap, get-set, Unique, set-Unique}
use bayou.JsMap.Keyed.{eval, eval_local, eval-append}
use bayou.JsMap.Grouped.{
  act_all, AllOn, Grouped, set-Grouped, concat, eval-concat, list_of, Grouped-get,
}
use bayou.Ot.Delta.{Delta}
use bayou.Doc.Caret.{Caret, Field, set_field}
use bayou.Doc.Caret.Fields.{set_field-id}
use bayou.Doc.Caret.Op.{CaretOp, add, delete, set, caret_id, compose}
use bayou.Doc.Caret.Delta.{replace, set_in, compose_op, compose_ops, impl_compose}
use bayou.Doc.Caret.Delta.Meaning.{
  act, apply, IsGroup, AreSets, act-replace, replace-AllOn, replace-AreSets,
}

-- What `setField` makes of a group.
record SetIn (id : String) (f : Field) (os : List CaretOp) : Type 0 where
  after : List CaretOp
  runs : set_in id f os ≡ ok after
  on : AllOn caret_id id after
  group : IsGroup after
  acts : (a : Option Caret) → act_all act after a ≡ act (set id f) (act_all act os a)

set_in_sets :
    (id : String) (f : Field) (os : List CaretOp)
    → set_in id f os ≡ ok (replace id f os)
    → AllOn caret_id id os
    → AreSets os
    → IsGroup (replace id f os)
    → SetIn id f os
set_in_sets id f os r h w g = record {
  after = replace id f os;
  runs = r;
  on = replace-AllOn id f os h;
  group = g;
  acts = λ a. act-replace id f os a w;
}

sets-IsGroup : (os : List CaretOp) → AreSets os → IsGroup os
sets-IsGroup [] w = tt
sets-IsGroup (set i g ∷ os) w = w
sets-IsGroup (add _ ∷ os) w = absurd w
sets-IsGroup (delete _ ∷ os) w = absurd w

SetIn-total :
    (id : String) (f : Field) (os : List CaretOp)
    → AllOn caret_id id os
    → IsGroup os
    → SetIn id f os
unfolding set_in compose replace
SetIn-total id f (add c ∷ []) (p, h) g = record {
  after = add (set_field f c) ∷ [];
  runs = ground (arith, string_eq.beq_iff id c.id, p);
  on = (set_field-id f c ∙ p, h);
  group = tt;
  acts = λ a. refl;
}
SetIn-total id f (delete d ∷ []) h g = record {
  after = delete d ∷ [];
  runs = refl;
  on = h;
  group = tt;
  acts = λ a. refl;
}
SetIn-total id f [] h g = set_in_sets id f [] refl h tt (tt, tt)
SetIn-total id f (set i x ∷ os) h g =
    set_in_sets id f (set i x ∷ os) refl h g
      (sets-IsGroup (replace id f (set i x ∷ os)) (replace-AreSets id f (set i x ∷ os) g))
SetIn-total id f (add c ∷ o ∷ os) h g = absurd g
SetIn-total id f (delete d ∷ o ∷ os) h g = absurd g

-- Every caret's operations are a group.
record AreGroups (m : JsMap String (List CaretOp)) : Type 0 where
  group : (k : String) (os : List CaretOp) → JsMap.get k m ≡ some os → IsGroup os

record Turn (m : JsMap String (List CaretOp)) (op : CaretOp) : Type 0 where
  after : JsMap String (List CaretOp)
  runs : compose_op false m op ≡ ok after
  unique : Unique after
  grouped : Grouped caret_id after
  groups : AreGroups after
  acts :
      (a : Option Caret) (k : String)
      → act_all act (list_of (JsMap.get k after)) a ≡ (
          if caret_id op == k
          then act op (act_all act (list_of (JsMap.get k m)) a)
          else act_all act (list_of (JsMap.get k m)) a)

-- A group of one caret is written.
written :
    (m : JsMap String (List CaretOp)) (op : CaretOp) (os : List CaretOp)
    → compose_op false m op ≡ ok (JsMap.set (caret_id op) os m)
    → AllOn caret_id (caret_id op) os
    → IsGroup os
    → ((a : Option Caret)
        → act_all act os a ≡ act op (act_all act (list_of (JsMap.get (caret_id op) m)) a))
    → Unique m
    → Grouped caret_id m
    → AreGroups m
    → Turn m op
written m op os r h g acts u w v = record {
  after = JsMap.set (caret_id op) os m;
  runs = r;
  unique = set-Unique (caret_id op) os m u;
  grouped = set-Grouped caret_id act (caret_id op) os m h w;
  groups = record {
    group = λ k ps p. elim (Bool-cases (caret_id op == k)) [
      | inl q ↦ subst IsGroup (ground (arith, get-set (caret_id op) k os m, p)) g
      | inr q ↦ v.group k ps (ground (arith, get-set (caret_id op) k os m, p))
    ];
  };
  acts = λ a k. elim (Bool-cases (caret_id op == k)) [
    | inl q ↦
        let e : caret_id op ≡ k = (string_eq.beq_iff (caret_id op) k).0 q in
        let here : JsMap.get k (JsMap.set (caret_id op) os m) ≡ some os =
          ground (arith, get-set (caret_id op) k os m) in
        rw q (
          ap (λ o. act_all act (list_of o) a) here
          ∙ acts a
          ∙ ap (λ j. act op (act_all act (list_of (JsMap.get j m)) a)) e)
    | inr q ↦
        let there : JsMap.get k (JsMap.set (caret_id op) os m) ≡ JsMap.get k m =
          ground (arith, get-set (caret_id op) k os m) in
        rw q (ap (λ o. act_all act (list_of o) a) there)
  ];
}

turn :
    (m : JsMap String (List CaretOp)) (op : CaretOp)
    → Unique m
    → Grouped caret_id m
    → AreGroups m
    → Turn m op
unfolding compose_op
turn m (add c) u w v = written m (add c) (add c ∷ []) refl (refl, tt) tt (λ a. refl) u w v
turn m (delete id) u w v =
    written m (delete id) (delete id ∷ []) refl (refl, tt) tt (λ a. refl) u w v
turn m (set id f) u w v = elim (Option-cases (JsMap.get id m)) [
  | inl q ↦
      written m (set id f) (set id f ∷ []) (rw (compose_op, q)) (refl, tt) (tt, tt) (λ a. rw q) u w
        v
  | inr (os, q) ↦
      let s = SetIn-total id f os (Grouped-get caret_id act id m w q) (v.group id os q) in
      written m (set id f) s.after (ground (arith, q, s.runs)) s.on s.group (λ a. rw q (s.acts a)) u
        w v
]

record Turns (m : JsMap String (List CaretOp)) (ops : Delta CaretOp) : Type 0 where
  after : JsMap String (List CaretOp)
  runs : compose_ops false m ops ≡ ok after
  unique : Unique after
  grouped : Grouped caret_id after
  acts :
      (s : String → Option Caret) (k : String)
      → act_all act (list_of (JsMap.get k after)) (s k)
        ≡ apply ops (λ j. act_all act (list_of (JsMap.get j m)) (s j)) k

turns :
    (m : JsMap String (List CaretOp)) (ops : Delta CaretOp)
    → Unique m
    → Grouped caret_id m
    → AreGroups m
    → Turns m ops
unfolding compose_ops eval
turns m [] u w v = record { after = m; runs = refl; unique = u; grouped = w; acts = λ s k. refl }
turns m (op ∷ ops) u w v =
    let t = turn m op u w v in
    let r = turns t.after ops t.unique t.grouped t.groups in
    record {
      after = r.after;
      runs = rw t.runs r.runs;
      unique = r.unique;
      grouped = r.grouped;
      acts = λ s k. r.acts s k ∙ eval_local caret_id act ops _ _ k (t.acts (s k) k);
    }

-- Composing two deltas into a delta does not throw, and the result does to any carets what the
-- first and then the second does, where setting a field of a caret that is not there does nothing.
pub caret-impl_compose :
    (a b : Delta CaretOp)
    → (r : Delta CaretOp) × (impl_compose a b false ≡ ok r)
      × ((s : String → Option Caret) (k : String) → apply r s k ≡ apply b (apply a s) k)
unfolding impl_compose JsMap.get
caret-impl_compose a b =
    let t = turns [] (a ++ b) tt tt (record { group = λ k os p. absurd (ground (arith, p)) }) in
    (
      concat t.after,
      rw t.runs,
      λ s k.
          eval-concat caret_id act t.after s k t.grouped t.unique
          ∙ t.acts s k
          ∙ eval_local caret_id act (a ++ b) _ _ k refl
          ∙ eval-append caret_id act a b s k,
    )
