-- ===== src/FileStoreLocal/Storage/Durable.antt =====
-- About what local-modules/@bayou/file-store-local/LocalFile.js writes, and reads again.
use bayou.Prelude.{
  ℕ, suc, ◌+◌, ◌<◌, ◌≡◌, ◌≢◌, refl, sym, ◌∙◌, ap, subst, true, false, Bool-cases, inl, inr, some,
  none, List, [], ◌∷◌, ◌++◌, map, append_assoc, append-nil, length, All, append-All, arith, Result,
  ok, ◌==◌, nat_eq, leb, String, string_eq,
}
use bayou.JsMap
use bayou.JsMap.{JsMap}
use bayou.Ot.Change.{Change}
use bayou.FileStoreLocal.Names.{rev_num_from_fs_path, fs_path_from_rev_num, rev_num-fs_path}
use bayou.FileStoreLocal.SparseArray.{SparseArray}
use bayou.FileStoreLocal.Storage.{store_bufs, read_files, write_files}
use bayou.FileStoreLocal.Storage.Order.{Distinct, place}

module _ {Op Buffer : Type 0} (encode : Change Op → Buffer) (decode : Buffer → Result (Change Op))
    (round_trip : (x : Change Op) → decode (encode x) ≡ ok x) where
  abbrev pub queued : Change Op → ℕ × Buffer
  queued x = (x.rev_num, encode x)

  abbrev pub saved : Change Op → String × Buffer
  saved x = (fs_path_from_rev_num x.rev_num, encode x)

  -- The revision number has a name of its own.
  abbrev pub IsSmall : Change Op → Type 0
  IsSmall x = x.rev_num < 4294967296

  -- The revision number is not that of the change.
  abbrev pub Other : Change Op → Change Op → Type 0
  Other x y = y.rev_num ≢ x.rev_num

  store-place :
      (w : List (Change Op)) (a : SparseArray (Change Op))
      → store_bufs decode (map queued w) a ≡ ok (place w a)
  unfolding store_bufs place
  store-place [] a = refl
  store-place (x ∷ w) a =
      let e : (x.rev_num == x.rev_num) ≡ true = ground arith in
      rw (round_trip x, e) (store-place w _)

  pub set-queued :
      (x : Change Op) (w : List (Change Op))
      → All (Other x) w
      → JsMap.set x.rev_num (encode x) (map queued w) ≡ map queued (w ++ (x ∷ []))
  unfolding JsMap.set
  set-queued x [] h = refl
  set-queued x (y ∷ w) (n, h) =
      let e : (y.rev_num == x.rev_num) ≡ false = ground (arith, n) in
      rw e (rw (set-queued x w h) refl)

  same_name :
      (n m : ℕ)
      → n < 4294967296
      → m < 4294967296
      → fs_path_from_rev_num n ≡ fs_path_from_rev_num m
      → n ≡ m
  same_name n m h k e =
      some_inj _ _ (sym (rev_num-fs_path n h) ∙ ap rev_num_from_fs_path e ∙ rev_num-fs_path m k)
    where
      some_inj : (i j : ℕ) → some i ≡ some j → i ≡ j
      some_inj i j q = ap (λ o. elim o [ some v ↦ v | none ↦ 0 ]) q

  set-saved :
      (x : Change Op) (m : List (Change Op))
      → IsSmall x
      → All IsSmall m
      → All (Other x) m
      → JsMap.set (fs_path_from_rev_num x.rev_num) (encode x) (map saved m)
        ≡ map saved (m ++ (x ∷ []))
  unfolding JsMap.set
  set-saved x [] s t h = refl
  set-saved x (y ∷ m) s (u, t) (n, h) =
      elim (Bool-cases (fs_path_from_rev_num y.rev_num == fs_path_from_rev_num x.rev_num)) [
        | inl e ↦ absurd (n (same_name y.rev_num x.rev_num u s ((string_eq.beq_iff _ _).0 e)))
        | inr e ↦ rw e (rw (set-saved x m s t h) refl)
      ]

  pub append_parts :
      (P : Change Op → Type 0) (a b : List (Change Op)) → All P (a ++ b) → All P a × All P b
  append_parts P [] b h = (tt, h)
  append_parts P (x ∷ a) b (p, h) = let (u, v) = append_parts P a b h in ((p, u), v)

  last_part : (m k : List (Change Op)) → Distinct (m ++ k) → Distinct k
  last_part [] k d = d
  last_part (y ∷ m) k (h, d) = last_part m k d

  -- What a list of distinct changes says of its parts.
  others : (x : Change Op) (m k : List (Change Op)) → Distinct (m ++ (x ∷ k)) → All (Other x) m
  others x [] k d = tt
  others x (y ∷ m) k (h, d) = ((append_parts _ m (x ∷ k) h).1.0, others x m k d)

  pub write_files-saved :
      (w m : List (Change Op))
      → Distinct (m ++ w)
      → All IsSmall m
      → All IsSmall w
      → write_files (map queued w) (map saved m) ≡ map saved (m ++ w)
  unfolding write_files
  write_files-saved [] m d s t = ap (map saved) (sym (append-nil m))
  write_files-saved (x ∷ w) m d s (u, t) =
      let e = append_assoc m (x ∷ []) w in
      ap (write_files (map queued w)) (set-saved x m u s (others x m w d))
      ∙ write_files-saved w (m ++ (x ∷ [])) (subst Distinct (sym e) d)
          (append-All IsSmall m (x ∷ []) s (u, tt)) t
      ∙ ap (map saved) e

  place-append :
      (w m : List (Change Op)) (a : SparseArray (Change Op))
      → place (w ++ m) a ≡ place m (place w a)
  unfolding place
  place-append [] m a = refl
  place-append (x ∷ w) m a = place-append w m _

  -- Reading the files of distinct changes, with some buffers that wait to be stored.
  pub read_files-saved :
      (m w : List (Change Op)) (count : ℕ) (a : SparseArray (Change Op))
      → Distinct (w ++ m)
      → All IsSmall m
      → read_files decode (map saved m) (map queued w) count a
        ≡ ok (length m + count, place (w ++ m) a)
  unfolding read_files place
  read_files-saved [] w count a d s = rw (store-place w a) (
      ap (λ k. ok (count, place k a)) (sym (append-nil w))
      ∙ ap (λ n. ok (n, place (w ++ []) a)) (omega arith))
  read_files-saved (x ∷ m) w count a d (u, s) =
      let more = w ++ (x ∷ []) in
      let e = append_assoc w (x ∷ []) m in
      let q = set-queued x w (others x w m d) in
      let c : length m + suc count ≡ suc (length m) + count = omega arith in
      elim (Bool-cases (leb 20 (length (map queued more)))) [
        | inl b ↦
            rw (read_files, rev_num-fs_path x.rev_num u, q, b, store-place more a)
              (read_files-saved m [] (suc count) (place more a)
                  (last_part more m (subst Distinct (sym e) d)) s
                ∙ ap (λ k. ok (length m + suc count, k))
                    (sym (place-append more m a) ∙ ap (λ k. place k a) e)
                ∙ ap (λ k. ok (k, place (w ++ (x ∷ m)) a)) c)
        | inr b ↦
            rw (read_files, rev_num-fs_path x.rev_num u, q, b)
              (read_files-saved m more (suc count) a (subst Distinct (sym e) d) s
                ∙ ap (λ k. ok (length m + suc count, place k a)) e
                ∙ ap (λ k. ok (k, place (w ++ (x ∷ m)) a)) c)
      ]
