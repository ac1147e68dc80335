-- ===== src/DocServer/CaretControl/Idle.antt =====
-- About the idle carets of local-modules/@bayou/doc-server/CaretControl.js.
use native.Mathlib.Numerals.{add-one}
use bayou.Prelude.{
  ℕ, suc, ◌+◌, ◌/◌, ◌%◌, ◌≤◌, ltb, Bool, false, Option, if◌then◌else◌, ◌/◌, ◌%◌, ◌≤◌, ltb, ◌-◌, ◌≡◌,
  refl, sym, ◌∙◌, ap, subst, true, [], ◌∷◌, none, some, ok, ◌==◌, nat_eq, string_eq, String, arith,
  ◌⊎◌, inl, inr, Bool-cases,
}
use bayou.Prelude.Int.{pos, negsuc, ◌+ℤ◌}
use bayou.JsMap
use bayou.JsMap.{JsMap, Unique, values}
use bayou.JsMap.Keyed.{Keyed}
use bayou.JsMap.Distinct.{distinct-IsMapOf}
use bayou.Ot.Change.{Change, with_timestamp}
use bayou.Ot.Timestamp.{Timestamp, add_msec}
use bayou.Ot.Timestamp.Laws.{
  IsValid, to_usec, at_usec, at_usec-IsValid, add_usec-eq, compare_to-eq, order,
}
use bayou.Ot.Snapshot.{Snapshot, compose, make, with_rev_num}
use bayou.Doc.Caret.{Caret}
use bayou.Doc.Caret.Op.{CaretOp, add, delete, set, caret_id, is_add}
use bayou.Doc.Caret.Delta.{caret_class}
use bayou.Doc.Caret.Delta.Meaning.{meaning}
use bayou.Doc.Caret.Delta.Documents.{is_document-eq, stored}
use bayou.Doc.Caret.Snapshot.{entries}
use bayou.Doc.Caret.Snapshot.Laws.{IsDocument, map_of, meaning-stored}
use bayou.Doc.Caret.Snapshot.Changes.{HasIds}
use bayou.Doc.Caret.Snapshot.Diff.{compose-caret_diff}
use bayou.DocServer.CaretControl.{is_idle, remove_idle, idle_change, max_caret_idle_msec}
use bayou.DocServer.CaretControl.Removal.{
  still_active, carets_of, entries-values, count_idle, carets_of-AllIds, removed, left_at-stored,
  left_at-kept,
}

counted_behind :
    (j k : String) (o : CaretOp) (m : JsMap String CaretOp) (c : Caret)
    → JsMap.get j m ≡ none
    → stored m k ≡ some c
    → stored ((j, o) ∷ m) k ≡ some c
unfolding JsMap.get
counted_behind j k o m c f e = elim (Bool-cases (j == k)) [
  | inl q ↦
      absurd (ground (arith, subst (λ i. JsMap.get i m ≡ none) ((string_eq.beq_iff j k).0 q) f, e))
  | inr q ↦ rw q e
]

-- A caret that is counted is one of the map.
counted :
    (min_time : Timestamp) (m : JsMap String CaretOp)
    → Unique m
    → Keyed caret_id m
    → ¬ (count_idle min_time (carets_of m) ≡ 0)
    → (k : String) × (c : Caret) × (stored m k ≡ some c) × (is_idle min_time c ≡ true)
unfolding count_idle carets_of JsMap.get
counted min_time [] u w h = absurd (h refl)
counted min_time ((j, add c) ∷ m) (f, u) (p, w) h = elim (Bool-cases (is_idle min_time c)) [
  | inl q ↦ (j, c, ground (arith, string_eq.beq_iff j j), q)
  | inr q ↦
      let (k, d, e, i) = counted min_time m u w (λ z. h (rw q z)) in
      (k, d, counted_behind j k (add c) m d f e, i)
]
counted min_time ((_, delete _) ∷ m) (f, u) (_, w) h =
    let (k, d, e, i) = counted min_time m u w h in (k, d, counted_behind _ k _ m d f e, i)
counted min_time ((_, set _ _) ∷ m) (f, u) (_, w) h =
    let (k, d, e, i) = counted min_time m u w h in (k, d, counted_behind _ k _ m d f e, i)

with_rev_num-next :
    (s : Snapshot CaretOp) (n : ℕ)
    → s.rev_num ≡ n
    → IsDocument s
    → with_rev_num caret_class s (suc n) ≡ ok (record { rev_num = suc n; contents = s.contents })
unfolding with_rev_num make
with_rev_num-next s n e d = ground (arith, e, d)

-- The check for idle carets, for the time before which a caret is idle.
idle_change-before :
    (now min_time : Timestamp) (s : Snapshot CaretOp)
    → IsDocument s
    → HasIds (map_of s)
    → add_msec now (negsuc (max_caret_idle_msec - 1)) ≡ ok min_time
    → ((idle_change now s ≡ ok none)
        × ((k : String) → still_active min_time (meaning s.contents k) ≡ meaning s.contents k))
      ⊎ ((ch : Change CaretOp) × (r : Snapshot CaretOp) × (idle_change now s ≡ ok (some ch))
          × ((k : String) × (c : Caret) × (meaning s.contents k ≡ some c)
              × (is_idle min_time c ≡ true))
          × (ch.timestamp ≡ some now)
          × (compose caret_class s ch ≡ ok r)
          × IsDocument r
          × (r.rev_num ≡ suc s.rev_num)
          × ((k : String) → meaning r.contents k ≡ still_active min_time (meaning s.contents k)))
unfolding idle_change compose with_timestamp
idle_change-before now min_time s d n e =
    let w = distinct-IsMapOf caret_id is_add s.contents (sym (is_document-eq s.contents) ∙ d) in
    let x = w.document in
    let cs = carets_of (map_of s) in
    let b : entries s.contents ≡ ok cs =
      ap entries (sym w.same) ∙ entries-values (map_of s) x.writes in
    let r = removed min_time cs s 0 d (carets_of-AllIds (map_of s) x.keyed n) in
    let runs : remove_idle min_time cs s 0 ≡ ok (r.left, count_idle min_time cs) =
      r.runs ∙ ap (λ i. ok (r.left, i)) (omega arith) in
    let active = λ (k : String).
      rw (sym (meaning-stored s k d)) at
        (left_at-stored min_time (map_of s) k x.unique x.keyed x.writes) in
    elim (Bool-cases (count_idle min_time cs == 0)) [
      | inl q ↦
          let z = (nat_eq.beq_iff (count_idle min_time cs) 0).0 q in
          inl (
            rw (e, b) (rw runs (rw q refl)),
            λ k. sym (active k) ∙ left_at-kept min_time cs k (meaning s.contents k) z,
          )
      | inr q ↦
          let newer : Snapshot CaretOp = record {
            rev_num = suc s.rev_num;
            contents = r.left.contents;
          } in
          let v : with_rev_num caret_class r.left (suc s.rev_num) ≡ ok newer =
            with_rev_num-next r.left s.rev_num r.rev_num r.document in
          let (k, c, at_k, idle) =
            counted min_time (map_of s) x.unique x.keyed (λ z. absurd (ground (arith, z, q))) in
          let (ch, t, p, f, g, i, m) = compose-caret_diff s newer d r.document n in
          inr (
            record ch { timestamp = some now },
            t,
            rw (e, b) (rw runs (rw q (rw (add-one s.rev_num, v) (rw p refl)))),
            (k, c, meaning-stored s k d ∙ at_k, idle),
            refl,
            f,
            g,
            i,
            λ k. m k ∙ r.carets k ∙ active k,
          )
    ]

-- Whether a caret was last active more than five minutes before.
abbrev pub is_stale : Timestamp → Caret → Bool
is_stale now c = ltb (to_usec c.last_active + 300000000) (to_usec now)

-- What is left at an ID without the carets that were not active for five minutes.
abbrev pub still_fresh : Timestamp → Option Caret → Option Caret
still_fresh now none = none
still_fresh now (some c) = if is_stale now c then none else some c

-- The time of each caret is one that a timestamp can hold.
abbrev pub HasTimes : Snapshot CaretOp → Type 0
HasTimes s = (k : String) (c : Caret) → meaning s.contents k ≡ some c → IsValid c.last_active

least_time :
    (now : Timestamp)
    → IsValid now
    → 1010000300000000 ≤ to_usec now
    → (min_time : Timestamp) × (add_msec now (negsuc (max_caret_idle_msec - 1)) ≡ ok min_time)
      × IsValid min_time
      × (to_usec min_time + 300000000 ≡ to_usec now)
unfolding add_msec
least_time now v h =
    let u = to_usec now - 300000000 in
    let t : Timestamp = record { secs = u / 1000000; usecs = u % 1000000 } in
    let e : at_usec (pos (to_usec now) +ℤ negsuc 299999999) ≡ ok t =
      ground (arith, v.from, v.until, v.part, h) in
    let (w, q) = at_usec-IsValid (pos (to_usec now) +ℤ negsuc 299999999) e in
    (t, add_usec-eq now (negsuc 299999999) v ∙ e, w, ground (arith, h))

is_idle-stale :
    (now min_time : Timestamp) (c : Caret)
    → IsValid min_time
    → IsValid c.last_active
    → to_usec min_time + 300000000 ≡ to_usec now
    → is_idle min_time c ≡ is_stale now c
unfolding is_idle order
is_idle-stale now min_time c v w e = ground (arith, compare_to-eq min_time c.last_active v w, e)

still_active-fresh :
    (now min_time : Timestamp) (x : Option Caret)
    → IsValid min_time
    → to_usec min_time + 300000000 ≡ to_usec now
    → ((c : Caret) → x ≡ some c → IsValid c.last_active)
    → still_active min_time x ≡ still_fresh now x
unfolding still_active
still_active-fresh now min_time none v e h = refl
still_active-fresh now min_time (some c) v e h =
    rw (is_idle-stale now min_time c v (h c refl) e) refl

kept-fresh :
    (now min_time : Timestamp) (x : Option Caret) (c : Caret)
    → is_idle min_time c ≡ is_stale now c
    → still_active min_time x ≡ x
    → x ≡ some c
    → is_stale now c ≡ false
unfolding still_active
kept-fresh now min_time x c e h q = elim (Bool-cases (is_stale now c)) [
  | inl p ↦ absurd (ground (arith, e, p, q, h))
  | inr p ↦ p
]

-- For a document snapshot that has only caret IDs for its keys and valid times, and a valid time
-- five minutes or more behind the least, the check for idle carets either makes no change, and then
-- no caret was last active more than five minutes before the time, or finds one that was, and makes
-- a change with the time as its timestamp that, composed onto the snapshot, gives a document
-- snapshot of the next revision, with exactly the carets that were active since.
pub idle_change-IsActive :
    (now : Timestamp) (s : Snapshot CaretOp)
    → IsDocument s
    → HasIds (map_of s)
    → HasTimes s
    → IsValid now
    → 1010000300000000 ≤ to_usec now
    → ((idle_change now s ≡ ok none)
        × ((k : String) (c : Caret) → meaning s.contents k ≡ some c → is_stale now c ≡ false))
      ⊎ ((ch : Change CaretOp) × (r : Snapshot CaretOp) × (idle_change now s ≡ ok (some ch))
          × ((k : String) × (c : Caret) × (meaning s.contents k ≡ some c) × (is_stale now c ≡ true))
          × (ch.timestamp ≡ some now)
          × (compose caret_class s ch ≡ ok r)
          × IsDocument r
          × (r.rev_num ≡ suc s.rev_num)
          × ((k : String) → meaning r.contents k ≡ still_fresh now (meaning s.contents k)))
idle_change-IsActive now s d n times v h =
    let (min_time, e, w, q) = least_time now v h in
    let same = λ (c : Caret) (z : IsValid c.last_active). is_idle-stale now min_time c w z q in
    elim (idle_change-before now min_time s d n e) [
      | inl (f, a) ↦ inl (
        f,
        λ k c i. kept-fresh now min_time (meaning s.contents k) c (same c (times k c i)) (a k) i,
      )
      | inr (ch, r, f, (k, c, i, j), g, o, p, m, a) ↦ inr (
        ch,
        r,
        f,
        (k, c, i, sym (same c (times k c i)) ∙ j),
        g,
        o,
        p,
        m,
        λ k. a k ∙ still_active-fresh now min_time (meaning s.contents k) w q (times k),
      )
    ]
