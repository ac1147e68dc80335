-- ===== src/Doc/Caret/Delta/Meaning.antt =====
-- What an operation of local-modules/@bayou/doc-common/CaretDelta.js does to the carets of a session.
use bayou.Prelude.{
  ◌≡◌, refl, sym, ◌∙◌, ap, true, false, List, [], ◌∷◌, Option, none, some, String, string_eq, ◌==◌,
  arith, Bool-cases, inl, inr,
}
use bayou.JsMap.Keyed.{eval}
use bayou.JsMap.Grouped.{act_all, AllOn}
use bayou.Ot.Delta.{Delta}
use bayou.Doc.Caret.{Caret, Field, key, set_field}
use bayou.Doc.Caret.Fields.{set_field-same, set_field-other}
use bayou.Doc.Caret.Op.{CaretOp, add, delete, set, caret_id}
use bayou.Doc.Caret.Delta.{same_key, replace}

-- What an operation makes of its own caret. A field of a missing caret is not set.
abbrev pub act : CaretOp → Option Caret → Option Caret
act (add c) _ = some c
act (delete _) _ = none
act (set _ f) none = none
act (set _ f) (some c) = some (set_field f c)

-- The carets that a delta makes of given ones.
abbrev pub apply : Delta CaretOp → (String → Option Caret) → String → Option Caret
apply = eval caret_id act

-- The carets of a document.
abbrev pub meaning : Delta CaretOp → String → Option Caret
meaning d = apply d (λ _. none)

-- The name of the field is not among those that the operations set.
abbrev pub IsFresh : Field → List CaretOp → Type 0
IsFresh f [] = Unit
IsFresh f (o ∷ os) = (same_key f o ≡ false) × IsFresh f os

-- Operations that set different fields.
abbrev pub AreSets : List CaretOp → Type 0
AreSets [] = Unit
AreSets (set _ f ∷ os) = IsFresh f os × AreSets os
AreSets (_ ∷ os) = ⊥

-- What a caret has in the map: one `add` or `delete`, or operations that set different fields.
abbrev pub IsGroup : List CaretOp → Type 0
IsGroup (add _ ∷ []) = Unit
IsGroup (delete _ ∷ []) = Unit
IsGroup os = AreSets os

act-commute :
    (i j : String) (f g : Field) (a : Option Caret)
    → (key g == key f) ≡ false
    → act (set i g) (act (set j f) a) ≡ act (set j f) (act (set i g) a)
act-commute i j f g none h = refl
act-commute i j f g (some c) h = ap some (set_field-other g f c h)

act-override :
    (i j : String) (f g : Field) (a : Option Caret)
    → (key g == key f) ≡ true
    → act (set i f) (act (set j g) a) ≡ act (set i f) a
act-override i j f g none h = refl
act-override i j f g (some c) h = ap some (
    set_field-same f g c
      (ground (arith, string_eq.beq_iff (key f) (key g), string_eq.beq_iff (key g) (key f))))

fresh-commute :
    (id : String) (f : Field) (os : List CaretOp) (a : Option Caret)
    → AreSets os
    → IsFresh f os
    → act_all act os (act (set id f) a) ≡ act (set id f) (act_all act os a)
fresh-commute id f [] a w h = refl
fresh-commute id f (add _ ∷ os) a w h = absurd w
fresh-commute id f (delete _ ∷ os) a w h = absurd w
fresh-commute id f (set i g ∷ os) a (v, w) (n, h) =
    ap (act_all act os) (act-commute i id f g a n) ∙ fresh-commute id f os (act (set i g) a) w h

-- Replacing in a list of different fields does what setting the field after the list does.
IsFresh-key :
    (f g : Field) (os : List CaretOp) → (key g == key f) ≡ true → IsFresh g os → IsFresh f os
IsFresh-key f g [] e h = tt
IsFresh-key f g (add _ ∷ os) e (n, h) = (refl, IsFresh-key f g os e h)
IsFresh-key f g (delete _ ∷ os) e (n, h) = (refl, IsFresh-key f g os e h)
IsFresh-key f g (set _ x ∷ os) e (n, h) = (
  ground (
    arith,
    string_eq.beq_iff (key g) (key f),
    string_eq.beq_iff (key x) (key f),
    string_eq.beq_iff (key x) (key g),
  ),
  IsFresh-key f g os e h,
)

IsFresh-replace :
    (id : String) (f g : Field) (os : List CaretOp)
    → (key g == key f) ≡ false
    → IsFresh g os
    → IsFresh g (replace id f os)
unfolding replace
IsFresh-replace id f g [] n h =
    (ground (arith, string_eq.beq_iff (key f) (key g), string_eq.beq_iff (key g) (key f)), tt)
IsFresh-replace id f g (o ∷ os) n (p, h) = elim (Bool-cases (same_key f o)) [
  | inl q ↦
      rw q (ground (arith, string_eq.beq_iff (key f) (key g), string_eq.beq_iff (key g) (key f)), h)
  | inr q ↦ rw q (p, IsFresh-replace id f g os n h)
]

pub act-replace :
    (id : String) (f : Field) (os : List CaretOp) (a : Option Caret)
    → AreSets os
    → act_all act (replace id f os) a ≡ act (set id f) (act_all act os a)
unfolding replace
act-replace id f [] a w = refl
act-replace id f (add _ ∷ os) a w = absurd w
act-replace id f (delete _ ∷ os) a w = absurd w
act-replace id f (set i g ∷ os) a (v, w) = elim (Bool-cases (key g == key f)) [
  | inl p ↦ rw p (
      ap (act_all act os) (
        sym (
          act-override id i f g a
            (ground (arith, string_eq.beq_iff (key f) (key g), string_eq.beq_iff (key g) (key f)))))
      ∙ fresh-commute id f os (act (set i g) a) w (IsFresh-key f g os p v))
  | inr p ↦ rw p (act-replace id f os (act (set i g) a) w)
]

pub replace-AllOn :
    (id : String) (f : Field) (os : List CaretOp)
    → AllOn caret_id id os
    → AllOn caret_id id (replace id f os)
unfolding replace
replace-AllOn id f [] h = (refl, tt)
replace-AllOn id f (o ∷ os) (p, h) = elim (Bool-cases (same_key f o)) [
  | inl q ↦ rw q (refl, h)
  | inr q ↦ rw q (p, replace-AllOn id f os h)
]

pub replace-AreSets :
    (id : String) (f : Field) (os : List CaretOp) → AreSets os → AreSets (replace id f os)
unfolding replace
replace-AreSets id f [] w = (tt, tt)
replace-AreSets id f (add _ ∷ os) w = absurd w
replace-AreSets id f (delete _ ∷ os) w = absurd w
replace-AreSets id f (set i g ∷ os) (v, w) = elim (Bool-cases (key g == key f)) [
  | inl q ↦ rw q (IsFresh-key f g os q v, w)
  | inr q ↦ rw q (IsFresh-replace id f g os q v, replace-AreSets id f os w)
]
