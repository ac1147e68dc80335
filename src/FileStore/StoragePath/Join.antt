-- ===== src/FileStore/StoragePath/Join.antt =====
-- About joining and splitting paths in local-modules/@bayou/file-store-ot/StoragePath.js.
use Prim.Native.String.{◌++◌}
use text.Mathlib.TextLemmas.{cons-append, nil-append}
use bayou.Prelude.{
  ◌≡◌, refl, ◌∙◌, ap, Bool, true, false, ◌&&◌, List, [], ◌∷◌, String, nat_eq, ok, arith, All,
}
use bayou.Syntax.{all_word}
use bayou.FileStore.StoragePath.{components, is_instance, check, check_component}
use bayou.FileStore.StoragePath.Decimals.{components-append}
use bayou.FileStore.StoragePath.Index.{is_empty}
use bayou.FileStore.StoragePath.Parts.{join_slashes, check_each, join, split_slashes, split}

-- The texts that `checkComponent()` lets pass.
abbrev pub IsComponent : String → Type 0
IsComponent s = (is_empty s ≡ false) × (all_word s ≡ true)

check_component-eq : (s : String) → IsComponent s → check_component s ≡ ok s
unfolding check_component all_word
check_component-eq String.[] (h, _) = absurd (ground arith)
check_component-eq (String.◌∷◌ c s) (_, h) = ground (arith, h)

check_each-eq : (ss : List String) → All IsComponent ss → check_each ss ≡ ok ss
unfolding check_each
check_each-eq [] h = refl
check_each-eq (s ∷ ss) (h, k) = rw (check_component-eq s h, check_each-eq ss k) refl

split-word : (s : String) → all_word s ≡ true → split_slashes s ≡ s ∷ []
unfolding split_slashes all_word
split-word String.[] h = refl
split-word (String.◌∷◌ c s) h = ground (arith, h, split-word s)

split-append :
    (s t : String) → all_word s ≡ true → split_slashes (s ++ ("/" ++ t)) ≡ s ∷ split_slashes t
unfolding split_slashes all_word
split-append String.[] t h = rw (nil-append ("/" ++ t), cons-append "/" "" t, nil-append t) refl
split-append (String.◌∷◌ c s) t h =
    rw (cons-append c s ("/" ++ t)) (ground (arith, h, split-append s t))

split-join_slashes :
    (s : String) (ss : List String)
    → All IsComponent (s ∷ ss)
    → split_slashes (join_slashes (s ∷ ss)) ≡ s ∷ ss
unfolding join_slashes
split-join_slashes s [] ((_, h), _) = split-word s h
split-join_slashes s (t ∷ ts) ((_, h), k) =
    split-append s (join_slashes (t ∷ ts)) h ∙ ap (λ l. s ∷ l) (split-join_slashes t ts k)

word-components :
    (first : Bool) (s : String)
    → all_word s ≡ true
    → (first && is_empty s) ≡ false
    → components first s ≡ true
unfolding components all_word
word-components first String.[] h k = ground (arith, k)
word-components first (String.◌∷◌ c s) h k = ground (arith, h, word-components false s)

join_slashes-components :
    (s : String) (ss : List String)
    → All IsComponent (s ∷ ss)
    → components true (join_slashes (s ∷ ss)) ≡ true
unfolding join_slashes
join_slashes-components s [] ((e, h), _) = word-components true s h (ap (λ b. true && b) e)
join_slashes-components s (t ∷ ts) ((e, h), k) =
    components-append true s (join_slashes (t ∷ ts))
      (word-components true s h (ap (λ b. true && b) e)) (join_slashes-components t ts k)

slash-is_instance : (t : String) → components true t ≡ true → is_instance ("/" ++ t) ≡ true
unfolding is_instance
slash-is_instance t h = rw (cons-append "/" "" t, nil-append t) h

-- Joining components of which there is one or more gives a path, and splitting that gives the
-- components.
pub split-join :
    (s : String) (ss : List String)
    → All IsComponent (s ∷ ss)
    → (path : String) × (join (s ∷ ss) ≡ ok path)
      × (is_instance path ≡ true)
      × (split path ≡ ok (s ∷ ss))
unfolding join split check
split-join s ss h =
    let t = join_slashes (s ∷ ss) in
    let i = slash-is_instance t (join_slashes-components s ss h) in
    (
      "/" ++ t,
      rw (check_each-eq (s ∷ ss) h) refl,
      i,
      rw (i, cons-append "/" "" t, nil-append t, split-join_slashes s ss h) refl,
    )
