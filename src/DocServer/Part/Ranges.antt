-- ===== src/DocServer/Part/Ranges.antt =====
-- About reading a range of changes in local-modules/@bayou/doc-server/BaseControl.js.
use bayou.Prelude.{
  ℕ, zero, suc, ◌+◌, ◌-◌, ◌≤◌, ◌<◌, ◌≡◌, refl, ◌∙◌, Bool, true, false, not, ◌&&◌, ◌||◌, Bool-cases,
  inl, inr, none, some, List, [], ◌∷◌, take, drop, drop-nth, Eq, ◌==◌, nat_eq, Result, ok, err,
  String, string_eq, bad_use, bad_value, leb, ltb, length, nth-inside, if◌then◌else◌, arith,
}
use bayou.JsMap
use bayou.JsMap.{JsMap}
use bayou.Ot.Change.{Change}
use bayou.Ot.Snapshot.{Snapshot}
use bayou.FileStore.Op.{FileOp}
use bayou.FileStore.Snapshot.Ranges.{get_path_range-eq}
use bayou.DocServer.Part.{
  Part, change_value, change_path_prefix, path_for_change, read_changes, changes_in, none_missing,
  as_change,
}
use bayou.DocServer.Part.Calls.{get_change_range, read_change_range, check_rev_num_range}
use bayou.DocServer.Part.Paths.{change_path_prefix-is_instance}
use bayou.DocServer.Part.Log.{IsPart, IsLog, stored}
use bayou.FileStore.FileLaws.{FileLaws}
use bayou.DocServer.Part.Stored.{later, current_rev_num-Holds}

-- The numbers below `oldest` of a range.
missing_from : ℕ → ℕ → ℕ → List ℕ
missing_from oldest i zero = []
missing_from oldest i (suc left) =
    let rest = missing_from oldest (i + 1) left in if ltb i oldest then i ∷ rest else rest

missing_none : (oldest i left : ℕ) → oldest ≤ i → missing_from oldest i left ≡ []
unfolding missing_from
missing_none oldest i zero h = refl
missing_none oldest i (suc left) h =
    let z : ltb i oldest ≡ false = ground (arith, h) in
    rw z (missing_none oldest (i + 1) left (omega (arith, h)))

-- The changes of a range that are there.
abbrev pub available : {A : Type 0} → List A → ℕ → ℕ → ℕ → List A
available log oldest start end = take (end - later start oldest) (drop (later start oldest) log)

module _ {Op B S : Type 0} (part : Part Op B S) (p : IsPart part) (log : List (Change Op))
    (oldest : ℕ) where
  -- The map has what is stored for the changes of a range.
  Has : JsMap String B → ℕ → ℕ → Type 0
  Has found i end =
      (j : ℕ)
      → i ≤ j
      → j < end
      → JsMap.get (path_for_change part j) found ≡ stored part log oldest j

  read_changes-kept :
      (left i : ℕ) (found : JsMap String B) (allow : Bool)
      → Has found i (i + left)
      → i + left ≤ length log
      → oldest ≤ i
      → read_changes part found i left allow ≡ ok (take left (drop i log), [])
  unfolding read_changes Has as_change
  read_changes-kept zero i found allow h b k = refl
  read_changes-kept (suc left) i found allow h b k =
      let (x, e) = nth-inside i log (omega (arith, b)) in
      let z : leb oldest i ≡ true = ground (arith, k) in
      let at : JsMap.get (path_for_change part i) found ≡ some (part.encode (change_value x)) =
        h i (omega arith) (omega arith) ∙ rw (z, e) refl in
      let rest =
        read_changes-kept left (i + 1) found false
          (λ j m n. h j (omega (arith, m)) (omega (arith, n))) (omega (arith, b))
          (omega (arith, k)) in
      let n : i + 1 ≡ suc i = omega arith in
      rw (read_changes, at, p.decode-encode (change_value x), rest, n, drop-nth i log x e) refl

  read_changes-eq :
      (left i : ℕ) (found : JsMap String B) (allow : Bool)
      → Has found i (i + left)
      → i + left ≤ length log
      → read_changes part found i left allow
        ≡ ok (available log oldest i (i + left), if allow then [] else missing_from oldest i left)
  unfolding read_changes Has missing_from
  read_changes-eq zero i found allow h b =
      let z : i + 0 - later i oldest ≡ 0 = ground arith in
      rw z (elim (Bool-cases allow) [ inl a ↦ rw a refl | inr a ↦ rw a refl ])
  read_changes-eq (suc left) i found allow h b = elim (Bool-cases (ltb i oldest)) [
    | inl q ↦
        let z : leb oldest i ≡ false = ground (arith, q) in
        let at : JsMap.get (path_for_change part i) found ≡ none =
          h i (omega arith) (omega arith) ∙ rw z refl in
        let m : later (i + 1) oldest ≡ oldest = ground (arith, q) in
        let n : i + suc left ≡ i + 1 + left = omega arith in
        let rest =
          read_changes-eq left (i + 1) found allow
            (λ j m n. h j (omega (arith, m)) (omega (arith, n))) (omega (arith, b)) in
        rw (read_changes, at, rest, m, q, n)
          (elim (Bool-cases allow) [ inl a ↦ rw a refl | inr a ↦ rw a refl ])
    | inr q ↦
        let k : oldest ≤ i = ground (arith, q) in
        let m : later i oldest ≡ i = ground (arith, q) in
        let n : i + suc left - i ≡ suc left = omega arith in
        read_changes-kept (suc left) i found allow h b k
        ∙ rw (m, n, q, missing_none oldest (i + 1) left (omega (arith, k)))
            (elim (Bool-cases allow) [ inl a ↦ rw a refl | inr a ↦ rw a refl ])
  ]

  -- A change that is missing throws, unless missing ones are allowed.
  verdict :
      (left start : ℕ) (changes : List (Change Op)) (allow : Bool)
      → 1 ≤ left
      → none_missing part (changes, if allow then [] else missing_from oldest start left)
        ≡ (if allow || leb oldest start then ok changes else err bad_use)
  unfolding missing_from
  verdict zero start changes allow h = absurd (omega arith)
  verdict (suc left) start changes true h = refl
  verdict (suc left) start changes false h = elim (Bool-cases (ltb start oldest)) [
    | inl q ↦ let z : leb oldest start ≡ false = ground (arith, q) in rw (q, z) refl
    | inr q ↦
        let z : leb oldest start ≡ true = ground (arith, q) in
        rw (q, missing_none oldest (start + 1) left (ground (arith, q)), z) refl
  ]

  module _ (v : Snapshot (FileOp B)) (current : ℕ) (l : IsLog part v log current oldest) where
    -- What reading a range that is not empty from a snapshot of the file gives.
    changes_in-eq :
        (start end : ℕ) (allow : Bool)
        → start < end
        → end ≤ suc current
        → changes_in part v start end allow
          ≡ (if allow || leb oldest start then ok (available log oldest start end) else err bad_use)
    unfolding changes_in Has path_for_change
    changes_in-eq start end allow b c =
        let (found, e, f) =
          get_path_range-eq part.hash part.is_hash v (change_path_prefix part) l.document
            (change_path_prefix-is_instance part p.is_path) start end b in
        let n : start + (end - start) ≡ end = omega (arith, b) in
        let read =
          read_changes-eq (end - start) start found allow
            (λ j h k.
              let y : (leb start j && ltb j end) ≡ true = ground (arith, h, k, b) in
              f j ∙ rw y (l.changes j))
            (omega (arith, n, c, l.count)) in
        rw (e, read, n)
          (verdict (end - start) start (available log oldest start end) allow (omega (arith, b)))

module _ {Op B S : Type 0} (part : Part Op B S) (p : IsPart part) ⦃e : Eq B⦄ (size : B → ℕ)
    (laws : FileLaws part.hash size part.file) where
  -- What a range of changes reads as, in its order of checks.
  abbrev pub range_result : List (Change Op) → ℕ → ℕ → ℕ → ℕ → Bool → Result (List (Change Op))
  range_result log current oldest start end allow =
      if not (leb start end && leb end (suc current))
      then err bad_value
      else if start == end
      then ok []
      else if ltb 1000 (end - start)
      then err bad_use
      else if allow || leb oldest start
      then ok (available log oldest start end)
      else err bad_use

  -- For a part whose prefix is a path, with a codec that decodes what it encodes and hashes that
  -- tell numbers apart, in a file that meets its contract: reading a range of changes throws when
  -- the range is no range of existing revisions, gives nothing for an empty range, and throws for
  -- more than a thousand. Else it gives the changes of the range that are there, in order, and
  -- throws when one is missing and that is not allowed.
  pub get_change_range-eq :
      (s : S) (v : Snapshot (FileOp B)) (log : List (Change Op)) (current oldest start end : ℕ)
      (allow : Bool)
      → laws.Shows s v
      → IsLog part v log current oldest
      → (t : S) × laws.Shows t v
        × (get_change_range part start end allow s
            ≡ (range_result log current oldest start end allow, t))
  unfolding get_change_range read_change_range check_rev_num_range
  get_change_range-eq s v log current oldest start end allow shows l =
      let (t, shown, n) =
        current_rev_num-Holds part p size laws s log current oldest
          (record { view = v; shows = shows; is_log = l }) in
      let (u, showed, ran) = laws.read t v shown in
      let m : current + 1 ≡ suc current = omega arith in
      elim (Bool-cases (leb start end)) [
        | inr a ↦ (s, shows, rw a refl)
        | inl a ↦ elim (Bool-cases (leb end (suc current))) [
          | inr b ↦ (t, shown, rw (a, n, m, b) refl)
          | inl b ↦ elim (Bool-cases (start == end)) [
            | inl c ↦ (t, shown, rw (a, n, m, b, c) refl)
            | inr c ↦ elim (Bool-cases (ltb 1000 (end - start))) [
              | inl d ↦ (t, shown, rw (a, n, m, b, c, d) refl)
              | inr d ↦
                  let read =
                    changes_in-eq part p log oldest v current l start end allow
                      (ground (arith, a, c)) (ground (arith, b)) in
                  (u, showed, rw (a, n, m, b, c, d, ran, read) refl)
            ]
          ]
        ]
      ]
