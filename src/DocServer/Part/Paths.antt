-- ===== src/DocServer/Part/Paths.antt =====
-- The paths of a part of a document, in local-modules/@bayou/doc-server/BaseControl.js.
use Prim.Native.Char.{code}
use Prim.Native.String.{◌++◌}
use text.Mathlib.TextLemmas.{append_cancel_left, append_assoc, cons-append}
use text.Mathlib.TextPositions.{starts_with-append}
use text.Mathlib.Text.{starts_with}
use bayou.Prelude.{ℕ, ◌≡◌, ◌≢◌, refl, sym, ◌∙◌, ap, true, String, string_eq, ◌==◌, arith, nat_eq}
use bayou.FileStore.StoragePath
use bayou.FileStore.StoragePath.{is_instance, components}
use bayou.FileStore.StoragePath.Decimals.{append-is_instance, indexed-is_instance, indexed-inj}
use bayou.FileStore.Delta.Meaning.{in_prefix}
use bayou.FileStore.Snapshot.Ranges.{beq-indexed}
use bayou.DocServer.Part.{
  Part, change_path_prefix, revision_number_path, stored_snapshot_path, path_for_change,
}

abbrev second : String → ℕ
second (String.◌∷◌ c (String.◌∷◌ d s)) = code d
second _ = 0

module _ {Op B S : Type 0} (part : Part Op B S) where
  pub change_path_prefix-is_instance :
      is_instance part.path_prefix ≡ true → is_instance (change_path_prefix part) ≡ true
  unfolding change_path_prefix components
  change_path_prefix-is_instance h = append-is_instance part.path_prefix "change" h refl

  pub revision_number_path-is_instance :
      is_instance part.path_prefix ≡ true → is_instance (revision_number_path part) ≡ true
  unfolding revision_number_path components
  revision_number_path-is_instance h = append-is_instance part.path_prefix "revision_number" h refl

  pub stored_snapshot_path-is_instance :
      is_instance part.path_prefix ≡ true → is_instance (stored_snapshot_path part) ≡ true
  unfolding stored_snapshot_path components
  stored_snapshot_path-is_instance h = append-is_instance part.path_prefix "snapshot" h refl

  pub path_for_change-is_instance :
      (n : ℕ) → is_instance part.path_prefix ≡ true → is_instance (path_for_change part n) ≡ true
  unfolding path_for_change
  path_for_change-is_instance n h =
      indexed-is_instance (change_path_prefix part) n (change_path_prefix-is_instance h)

  path_for_change-eq :
      (n : ℕ)
      → path_for_change part n ≡ part.path_prefix ++ ("/change" ++ ("/" ++ StoragePath.decimal n))
  unfolding path_for_change change_path_prefix StoragePath.indexed
  path_for_change-eq n = append_assoc part.path_prefix "/change" _

  second-change : (t : String) → second ("/change" ++ t) ≡ b'c'
  second-change t = rw (cons-append "/" "change" t, cons-append "c" "hange" t) refl

  -- No two of the paths are the same.
  pub path_for_change-inj : (m n : ℕ) → path_for_change part m ≡ path_for_change part n → m ≡ n
  unfolding path_for_change
  path_for_change-inj m n e = indexed-inj (change_path_prefix part) m n e

  pub revision≢change : (n : ℕ) → revision_number_path part ≢ path_for_change part n
  unfolding revision_number_path
  revision≢change n e =
      let d = append_cancel_left part.path_prefix _ _ (e ∙ path_for_change-eq n) in
      let c : second "/revision_number" ≡ b'c' =
        ap second d ∙ second-change ("/" ++ StoragePath.decimal n) in
      absurd (omega (arith, c))

  pub snapshot≢change : (n : ℕ) → stored_snapshot_path part ≢ path_for_change part n
  unfolding stored_snapshot_path
  snapshot≢change n e =
      let d = append_cancel_left part.path_prefix _ _ (e ∙ path_for_change-eq n) in
      let c : second "/snapshot" ≡ b'c' =
        ap second d ∙ second-change ("/" ++ StoragePath.decimal n) in
      absurd (omega (arith, c))

  pub snapshot≢revision : stored_snapshot_path part ≢ revision_number_path part
  unfolding stored_snapshot_path revision_number_path
  snapshot≢revision e =
      let c : second "/snapshot" ≡ second "/revision_number" =
        ap second (append_cancel_left part.path_prefix _ _ e) in
      absurd (omega (arith, c))

  -- All are below the prefix.
  below :
      (t : String)
      → is_instance (part.path_prefix ++ ("/" ++ t)) ≡ true
      → in_prefix part.path_prefix (part.path_prefix ++ ("/" ++ t)) ≡ true
  unfolding in_prefix
  below t h =
      let e : starts_with (part.path_prefix ++ ("/" ++ t)) (part.path_prefix ++ "/") ≡ true =
        ap (λ u. starts_with u (part.path_prefix ++ "/"))
          (sym (append_assoc part.path_prefix "/" t))
        ∙ starts_with-append (part.path_prefix ++ "/") t in
      rw (h, e) refl

  pub below-change :
      (n : ℕ)
      → is_instance part.path_prefix ≡ true
      → in_prefix part.path_prefix (path_for_change part n) ≡ true
  below-change n h =
      let t = "change" ++ ("/" ++ StoragePath.decimal n) in
      let e : path_for_change part n ≡ part.path_prefix ++ ("/" ++ t) =
        path_for_change-eq n
        ∙ ap (λ u. part.path_prefix ++ u)
            (append_assoc "/" "change" ("/" ++ StoragePath.decimal n)) in
      let i = ap is_instance (sym e) ∙ path_for_change-is_instance n h in
      ap (in_prefix part.path_prefix) e ∙ below t i

  pub below-snapshot :
      is_instance part.path_prefix ≡ true
      → in_prefix part.path_prefix (stored_snapshot_path part) ≡ true
  unfolding stored_snapshot_path
  below-snapshot h = below "snapshot" (stored_snapshot_path-is_instance h)

  pub path_for_change-eq_iff :
      (m n : ℕ) → (path_for_change part m == path_for_change part n) ≡ (m == n)
  unfolding path_for_change
  path_for_change-eq_iff m n = beq-indexed (change_path_prefix part) m n
