-- ===== src/DocServer/CaretControl/Removal.antt =====
-- About the loop that removes idle carets, in local-modules/@bayou/doc-server/CaretControl.js.
use bayou.Prelude.{
  ℕ, suc, ◌+◌, ◌≡◌, refl, sym, ◌∙◌, ap, subst, true, List, [], ◌∷◌, Option, none, some, ok, ◌==◌,
  nat_eq, string_eq, String, arith, if◌then◌else◌, inl, inr, Bool-cases,
}
use bayou.JsMap
use bayou.JsMap.{JsMap, Unique, values}
use bayou.JsMap.Keyed.{Keyed}
use bayou.JsMap.Distinct.{AllWrites}
use bayou.Ot.Timestamp.{Timestamp}
use bayou.Ot.Snapshot.{Snapshot}
use bayou.Doc.Caret.{Caret, is_id}
use bayou.Doc.Caret.Op.{CaretOp, add, delete, set, caret_id, is_add}
use bayou.Doc.Caret.Delta.Meaning.{meaning}
use bayou.Doc.Caret.Delta.Documents.{stored}
use bayou.Doc.Caret.Snapshot.{entries}
use bayou.Doc.Caret.Snapshot.Laws.{IsDocument, without_caret-meaning}
use bayou.Doc.Caret.Snapshot.Changes.{HasIds}
use bayou.DocServer.CaretControl.{is_idle, remove_idle}

-- What is left at an ID when the carets that are idle go.
unfoldable pub still_active : Timestamp → Option Caret → Option Caret
still_active min_time none = none
still_active min_time (some c) = if is_idle min_time c then none else some c

unfoldable pub carets_of : JsMap String CaretOp → List Caret
carets_of [] = []
carets_of ((_, add c) ∷ m) = c ∷ carets_of m
carets_of (_ ∷ m) = carets_of m

pub entries-values :
    (m : JsMap String CaretOp) → AllWrites is_add m → entries (values m) ≡ ok (carets_of m)
unfolding entries carets_of
entries-values [] w = refl
entries-values ((_, add c) ∷ m) (_, w) = rw (entries-values m w) refl
entries-values ((_, delete _) ∷ m) (h, w) = absurd (ground arith)
entries-values ((_, set _ _) ∷ m) (h, w) = absurd (ground arith)

-- What the loop leaves at an ID.
unfoldable pub left_at : Timestamp → List Caret → String → Option Caret → Option Caret
left_at min_time [] k x = x
left_at min_time (c ∷ cs) k x =
    if is_idle min_time c
    then left_at min_time cs k (if c.id == k then none else x)
    else left_at min_time cs k x

unfoldable pub count_idle : Timestamp → List Caret → ℕ
count_idle min_time [] = 0
count_idle min_time (c ∷ cs) =
    let rest = count_idle min_time cs in if is_idle min_time c then suc rest else rest

abbrev pub AllIds : List Caret → Type 0
AllIds [] = Unit
AllIds (c ∷ cs) = (is_id c.id ≡ true) × AllIds cs

pub carets_of-AllIds :
    (m : JsMap String CaretOp) → Keyed caret_id m → HasIds m → AllIds (carets_of m)
unfolding carets_of
carets_of-AllIds [] w n = tt
carets_of-AllIds ((j, add c) ∷ m) (p, w) (i, n) =
    (subst (λ x. is_id x ≡ true) (sym p) i, carets_of-AllIds m w n)
carets_of-AllIds ((_, delete _) ∷ m) (_, w) (_, n) = carets_of-AllIds m w n
carets_of-AllIds ((_, set _ _) ∷ m) (_, w) (_, n) = carets_of-AllIds m w n

pub record Removed (min_time : Timestamp) (cs : List Caret) (newer : Snapshot CaretOp) (count : ℕ)
    : Type 0 where
  pub left : Snapshot CaretOp
  pub runs : remove_idle min_time cs newer count ≡ ok (left, count + count_idle min_time cs)
  pub document : IsDocument left
  pub rev_num : left.rev_num ≡ newer.rev_num
  pub carets :
      (k : String) → meaning left.contents k ≡ left_at min_time cs k (meaning newer.contents k)

pub removed :
    (min_time : Timestamp) (cs : List Caret) (newer : Snapshot CaretOp) (count : ℕ)
    → IsDocument newer
    → AllIds cs
    → Removed min_time cs newer count
unfolding remove_idle left_at count_idle
removed min_time [] newer count d a = record {
  left = newer;
  runs = ground arith;
  document = d;
  rev_num = refl;
  carets = λ k. refl;
}
removed min_time (c ∷ cs) newer count d (i, a) = elim (Bool-cases (is_idle min_time c)) [
  | inl q ↦
      let (t, e, g, n, m) = without_caret-meaning newer c.id d i in
      let r = removed min_time cs t (count + 1) g a in
      record {
        left = r.left;
        runs = rw (q, e, r.runs) (ap (λ n. ok (r.left, n)) (omega arith));
        document = r.document;
        rev_num = r.rev_num ∙ n;
        carets = λ k. rw q (r.carets k ∙ ap (left_at min_time cs k) (m k));
      }
  | inr q ↦
      let r = removed min_time cs newer count d a in
      record {
        left = r.left;
        runs = rw q r.runs;
        document = r.document;
        rev_num = r.rev_num;
        carets = λ k. rw q (r.carets k);
      }
]

-- An ID that is not among the carets keeps what it has.
left_at-fresh :
    (min_time : Timestamp) (m : JsMap String CaretOp) (k : String) (x : Option Caret)
    → Keyed caret_id m
    → JsMap.get k m ≡ none
    → left_at min_time (carets_of m) k x ≡ x
unfolding left_at carets_of JsMap.get
left_at-fresh min_time [] k x w h = refl
left_at-fresh min_time ((j, add c) ∷ m) k x (p, w) h =
    ground (arith, p, left_at-fresh min_time m k x w)
left_at-fresh min_time ((_, delete _) ∷ m) k x (_, w) h =
    left_at-fresh min_time m k x w (ground arith)
left_at-fresh min_time ((_, set _ _) ∷ m) k x (_, w) h =
    left_at-fresh min_time m k x w (ground arith)

left_at-none :
    (min_time : Timestamp) (cs : List Caret) (k : String) → left_at min_time cs k none ≡ none
unfolding left_at
left_at-none min_time [] k = refl
left_at-none min_time (c ∷ cs) k = ground (arith, left_at-none min_time cs k)

pub left_at-stored :
    (min_time : Timestamp) (m : JsMap String CaretOp) (k : String)
    → Unique m
    → Keyed caret_id m
    → AllWrites is_add m
    → left_at min_time (carets_of m) k (stored m k) ≡ still_active min_time (stored m k)
unfolding left_at carets_of still_active JsMap.get
left_at-stored min_time [] k u w a = refl
left_at-stored min_time ((j, add c) ∷ m) k (f, u) (p, w) (_, a) = elim (Bool-cases (j == k)) [
  | inl q ↦
      let here =
        left_at-fresh min_time m k (some c) w
          (subst (λ i. JsMap.get i m ≡ none) ((string_eq.beq_iff j k).0 q) f) in
      ground (arith, p, q, here, left_at-none min_time (carets_of m) k)
  | inr q ↦ ground (arith, p, q, left_at-stored min_time m k u w a)
]
left_at-stored min_time ((_, delete _) ∷ m) k u w (h, a) = absurd (ground arith)
left_at-stored min_time ((_, set _ _) ∷ m) k u w (h, a) = absurd (ground arith)

pub left_at-kept :
    (min_time : Timestamp) (cs : List Caret) (k : String) (x : Option Caret)
    → count_idle min_time cs ≡ 0
    → left_at min_time cs k x ≡ x
unfolding left_at count_idle
left_at-kept min_time [] k x h = refl
left_at-kept min_time (c ∷ cs) k x h = ground (arith, h, left_at-kept min_time cs k x)
