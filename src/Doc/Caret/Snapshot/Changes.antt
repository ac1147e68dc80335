-- ===== src/Doc/Caret/Snapshot/Changes.antt =====
-- About the loops of `diff()` of local-modules/@bayou/doc-common/CaretSnapshot.js.
use bayou.Prelude.{
  ◌≡◌, refl, sym, ◌∙◌, ap, true, not, ◌&&◌, List, [], ◌∷◌, ◌++◌, Option, none, some, ok, String,
  string_eq, nat_eq, ◌==◌, if◌then◌else◌, arith, Option-cases, Bool-cases, inl, inr, subst,
}
use bayou.JsMap
use bayou.JsMap.{JsMap, Unique}
use bayou.JsMap.Keyed.{Keyed, eval, eval-append}
use bayou.JsMap.Grouped.{AllOn, act_all, eval_own, eval_other}
use bayou.JsMap.Distinct.{IsDocumentMap, AllWrites, entry_of, has-get}
use bayou.Ot.Delta.{Delta}
use bayou.Doc.Caret.{Caret, Field, check_id, is_id, fields, set_field}
use bayou.Doc.Caret.Fields.{op_equals_iff}
use bayou.Doc.Caret.Difference.{changed, set_all, sets, diff-sets, changed-set_all}
use bayou.Doc.Caret.Op.{CaretOp, add, delete, set, caret_id, is_add, op_delete, op_equals}
use bayou.Doc.Caret.Delta.Meaning.{act, apply}
use bayou.Doc.Caret.Delta.Documents.{applies, applies-append, step, stored}
use bayou.Doc.Caret.Snapshot.{change_ops, changed_ops, removed_ops}

-- The IDs of the carets have the syntax that the constructor checks.
abbrev pub HasIds : JsMap String CaretOp → Type 0
HasIds [] = Unit
HasIds ((id, _) ∷ m) = (is_id id ≡ true) × HasIds m

pub HasIds-get :
    (k : String) (m : JsMap String CaretOp) {o : CaretOp}
    → HasIds m
    → JsMap.get k m ≡ some o
    → is_id k ≡ true
unfolding JsMap.get
HasIds-get k [] w h = absurd (ground arith)
HasIds-get k ((j, p) ∷ m) (i, w) h = elim (Bool-cases (j == k)) [
  | inl q ↦ subst (λ x. is_id x ≡ true) ((string_eq.beq_iff j k).0 q) i
  | inr q ↦ HasIds-get k m w (rw q at h)
]

sets-AllOn : (id : String) (fs : List Field) → AllOn caret_id id (sets id fs)
sets-AllOn id [] = tt
sets-AllOn id (f ∷ fs) = (refl, sets-AllOn id fs)

act-sets :
    (id : String) (fs : List Field) (c : Caret)
    → act_all act (sets id fs) (some c) ≡ some (set_all fs c)
act-sets id [] c = refl
act-sets id (f ∷ fs) c = act-sets id fs (set_field f c)

sets-applies :
    (id : String) (fs : List Field) (s : String → Option Caret) (c : Caret)
    → s id ≡ some c
    → applies (sets id fs) s ≡ true
unfolding applies
sets-applies id [] s c h = refl
sets-applies id (f ∷ fs) s c h = ground (
  arith,
  h,
  sets-applies id fs (step (set id f) s) (set_field f c)
      (ground (arith, h, string_eq.beq_iff id id)),
)

-- What the first loop has for a caret takes what the older snapshot has there to that caret.
pub record Head (older : JsMap String CaretOp) (j : String) (d : Caret) : Type 0 where
  pub ops : Delta CaretOp
  pub runs : change_ops older j (add d) ≡ ok ops
  pub on : AllOn caret_id j ops
  pub acts : act_all act ops (stored older j) ≡ some d
  pub allows : (s : String → Option Caret) → s j ≡ stored older j → applies ops s ≡ true

head_kept :
    (older : JsMap String CaretOp) (j : String) (d : Caret) (o : CaretOp)
    → JsMap.get j older ≡ some o
    → (caret_id o ≡ j) × (is_add o ≡ true)
    → d.id ≡ j
    → is_id j ≡ true
    → Head older j d
unfolding change_ops applies
head_kept older j d (delete _) q (a, b) e i = absurd (ground arith)
head_kept older j d (set _ _) q (a, b) e i = absurd (ground arith)
head_kept older j d (add c) q (a, b) e i = elim (Bool-cases (op_equals (add c) (add d))) [
  | inl p ↦ record {
    ops = [];
    runs = ground (arith, q, p);
    on = tt;
    acts = ground (arith, q, (op_equals_iff (add c) (add d)).0 p);
    allows = λ s h. refl;
  }
  | inr p ↦ record {
    ops = sets j (changed (fields d) c);
    runs =
        ground (arith, q, p, diff-sets c d (a ∙ sym e) (subst (λ x. is_id x ≡ true) (sym a) i), a);
    on = sets-AllOn j (changed (fields d) c);
    acts = rw q (act-sets j (changed (fields d) c) c ∙ ap some (changed-set_all c d (a ∙ sym e)));
    allows = λ s h. sets-applies j (changed (fields d) c) s c (h ∙ ground (arith, q));
  }
]

head :
    (older : JsMap String CaretOp) (j : String) (d : Caret)
    → IsDocumentMap caret_id is_add older
    → HasIds older
    → d.id ≡ j
    → Head older j d
unfolding change_ops applies
head older j d w n e = elim (Option-cases (JsMap.get j older)) [
  | inl q ↦ record {
    ops = add d ∷ [];
    runs = ground (arith, q);
    on = (e, tt);
    acts = refl;
    allows = λ s h. refl;
  }
  | inr (o, q) ↦
      head_kept older j d o q (entry_of caret_id is_add j older w q) e (HasIds-get j older n q)
]

-- The carets of the newer snapshot are as the older has them.
abbrev pub Agrees : JsMap String CaretOp → JsMap String CaretOp → (String → Option Caret) → Type 0
Agrees older newer s =
    (k : String) (o : CaretOp) → JsMap.get k newer ≡ some o → s k ≡ stored older k

pub record Changed (older newer : JsMap String CaretOp) : Type 0 where
  pub ops : Delta CaretOp
  pub runs : changed_ops older newer ≡ ok ops
  pub applied :
      (s : String → Option Caret) (k : String)
      → Agrees older newer s
      → apply ops s k ≡ (elim (JsMap.get k newer) [ none ↦ s k | some o ↦ act o none ])
  pub allows : (s : String → Option Caret) → Agrees older newer s → applies ops s ≡ true

-- After the head the tail's carets are still as the older snapshot has them.
tail-Agrees :
    (older newer : JsMap String CaretOp) (j : String) (d : Caret) (h : Head older j d)
    (s : String → Option Caret)
    → JsMap.get j newer ≡ none
    → Agrees older ((j, add d) ∷ newer) s
    → Agrees older newer (apply h.ops s)
unfolding JsMap.get
tail-Agrees older newer j d h s f g k o q = elim (Bool-cases (j == k)) [
  | inl p ↦
      absurd
        (ground (arith, subst (λ i. JsMap.get i newer ≡ none) ((string_eq.beq_iff j k).0 p) f, q))
  | inr p ↦ eval_other caret_id act h.ops s j k h.on p ∙ g k o (rw p q)
]

head-here :
    (older newer : JsMap String CaretOp) (j : String) (d : Caret) (h : Head older j d)
    (s : String → Option Caret)
    → Agrees older ((j, add d) ∷ newer) s
    → (s j ≡ stored older j) × (apply h.ops s j ≡ some d)
unfolding JsMap.get
head-here older newer j d h s g =
    let here = g j (add d) (ground (arith, string_eq.beq_iff j j)) in
    (here, eval_own caret_id act h.ops s j h.on ∙ ap (act_all act h.ops) here ∙ h.acts)

Changed-head :
    (older : JsMap String CaretOp) (j : String) (o : CaretOp) (newer : JsMap String CaretOp)
    → is_add o ≡ true
    → caret_id o ≡ j
    → IsDocumentMap caret_id is_add older
    → HasIds older
    → JsMap.get j newer ≡ none
    → Changed older newer
    → Changed older ((j, o) ∷ newer)
unfolding changed_ops JsMap.get
Changed-head older j (delete _) newer a e w n f r = absurd (ground arith)
Changed-head older j (set _ _) newer a e w n f r = absurd (ground arith)
Changed-head older j (add d) newer a e w n f r =
    let h = head older j d w n e in
    record {
      ops = h.ops ++ r.ops;
      runs = ground (arith, h.runs, r.runs);
      applied = λ s k g.
          let p =
            eval-append caret_id act h.ops r.ops s k
            ∙ r.applied (apply h.ops s) k (tail-Agrees older newer j d h s f g) in
          elim (Bool-cases (j == k)) [
            | inl q ↦
                let e' : j ≡ k = (string_eq.beq_iff j k).0 q in
                let f' : JsMap.get k newer ≡ none = subst (λ i. JsMap.get i newer ≡ none) e' f in
                let z : apply h.ops s k ≡ some d =
                  subst (λ i. apply h.ops s i ≡ some d) e' (head-here older newer j d h s g).1 in
                ground (arith, p, q, f', z)
            | inr q ↦ ground (arith, p, q, eval_other caret_id act h.ops s j k h.on q)
          ];
      allows = λ s g.
          applies-append h.ops r.ops s
          ∙ ground (
            arith,
            h.allows s (head-here older newer j d h s g).0,
            r.allows (apply h.ops s) (tail-Agrees older newer j d h s f g),
          );
    }

pub Changed-total :
    (older newer : JsMap String CaretOp)
    → IsDocumentMap caret_id is_add older
    → HasIds older
    → Unique newer
    → Keyed caret_id newer
    → AllWrites is_add newer
    → Changed older newer
unfolding changed_ops JsMap.get applies eval
Changed-total older [] w n u k a = record {
  ops = [];
  runs = refl;
  applied = λ s k g. refl;
  allows = λ s g. refl;
}
Changed-total older ((j, o) ∷ newer) w n (f, u) (p, k) (x, a) =
    Changed-head older j o newer x p w n f (Changed-total older newer w n u k a)

-- The deletions of the second loop.
pub removed_total :
    (older newer : JsMap String CaretOp)
    → HasIds older
    → (r : Delta CaretOp) × (removed_ops newer older ≡ ok r)
      × ((s : String → Option Caret) → applies r s ≡ true)
      × ((s : String → Option Caret) (k : String)
          → apply r s k ≡ (if JsMap.has k older && not (JsMap.has k newer) then none else s k))
unfolding removed_ops op_delete check_id eval applies JsMap.has
removed_total [] b n = ([], refl, λ s. refl, λ s k. refl)
removed_total ((j, o) ∷ a) b (i, n) =
    let (r, e, z, m) = removed_total a b n in
    elim (Option-cases (JsMap.get j b)) [
      | inl q ↦ (
        delete j ∷ r,
        ground (arith, e),
        λ s. z (step (delete j) s),
        λ s k. m (step (delete j) s) k ∙ ground (arith, has-get j b, string_eq.beq_iff j k),
      )
      | inr (x, q) ↦ (
        r,
        ground (arith, e),
        z,
        λ s k. m s k ∙ ground (arith, has-get j b, string_eq.beq_iff j k),
      )
    ]
