-- ===== src/FileStore/Delta/Meaning.antt =====
-- About local-modules/@bayou/file-store-ot/FileDelta.js: what a delta makes of stored blobs.
use Prim.Native.String.{◌++◌ as str_append}
use text.Mathlib.Text.{starts_with}
use bayou.Prelude.{
  ℕ, zero, suc, ◌+◌, ◌-◌, ◌≡◌, refl, ◌∙◌, Bool, true, false, ◌&&◌, ◌||◌, List, [], ◌∷◌, ◌++◌,
  Option, none, some, ok, String, string_eq, ◌==◌, if◌then◌else◌, arith, Bool-cases, inl, inr, All,
}
use bayou.JsMap
use bayou.JsMap.{JsMap, get-set, get-delete}
use bayou.JsMap.Distinct.{IsDocumentMap, delete-IsDocumentMap}
use bayou.Ot.Delta.{Delta}
use bayou.FileStore.StoragePath
use bayou.FileStore.Op.{
  FileOp, delete_all, delete_blob, delete_path, delete_path_prefix, delete_path_range, write_blob,
  write_path,
}
use bayou.FileStore.Delta.{hits, delete_hits, delete_indexes}

-- `id` is a path at or below `prefix`.
unfoldable pub in_prefix : String → String → Bool
in_prefix prefix id =
    StoragePath.is_instance id && (starts_with id (str_append prefix "/") || id == prefix)

-- `id` is `prefix` with one of the `left` indexes from `n`.
unfoldable pub in_range : String → ℕ → ℕ → String → Bool
in_range prefix n zero id = false
in_range prefix n (suc left) id =
    StoragePath.indexed prefix n == id || in_range prefix (n + 1) left id

module _ {B : Type 0} (hash : B → String) where
  -- What an operation makes of stored blobs, by ID.
  abbrev pub apply_op : FileOp B → (String → Option B) → String → Option B
  apply_op delete_all s k = none
  apply_op (delete_blob h) s k = if h == k then none else s k
  apply_op (delete_path p) s k = if p == k then none else s k
  apply_op (delete_path_prefix p) s k = if in_prefix p k then none else s k
  apply_op (delete_path_range p from until) s k =
      if in_range p from (until - from) k then none else s k
  apply_op (write_blob b) s k = if hash b == k then some b else s k
  apply_op (write_path p b) s k = if p == k then some b else s k

  unfoldable pub apply : Delta (FileOp B) → (String → Option B) → String → Option B
  apply [] s k = s k
  apply (op ∷ ops) s k = apply ops (apply_op op s) k

  -- What a document stores.
  abbrev pub meaning : Delta (FileOp B) → String → Option B
  meaning d = apply d (λ _. none)

  -- The operations on one ID: their ID, and what they make of its blob.
  abbrev pub key : FileOp B → String
  key (delete_blob h) = h
  key (delete_path p) = p
  key (write_blob b) = hash b
  key (write_path p b) = p
  key _ = ""

  pub apply_local :
      (d : Delta (FileOp B)) (s t : String → Option B) (k : String)
      → s k ≡ t k
      → apply d s k ≡ apply d t k
  unfolding apply
  apply_local [] s t k h = h
  apply_local (op ∷ ops) s t k h =
      apply_local ops (apply_op op s) (apply_op op t) k (apply_op_local op s t k h)
    where
      apply_op_local :
          (op : FileOp B) (s t : String → Option B) (k : String)
          → s k ≡ t k
          → apply_op op s k ≡ apply_op op t k
      apply_op_local delete_all s t k h = refl
      apply_op_local op s t k h = ground arith

  pub apply-append :
      (a b : Delta (FileOp B)) (s : String → Option B) (k : String)
      → apply (a ++ b) s k ≡ apply b (apply a s) k
  unfolding apply
  apply-append [] b s k = apply_local b s (λ j. s j) k refl
  apply-append (op ∷ a) b s k = apply-append a b (apply_op op s) k

abbrev pub act : {B : Type 0} → FileOp B → Option B → Option B
act (write_blob b) x = some b
act (write_path p b) x = some b
act _ x = none

abbrev pub is_write : {B : Type 0} → FileOp B → Bool
is_write (write_blob b) = true
is_write (write_path p b) = true
is_write _ = false

abbrev pub is_single : {B : Type 0} → FileOp B → Bool
is_single (delete_blob h) = true
is_single (delete_path p) = true
is_single (write_blob b) = true
is_single (write_path p b) = true
is_single _ = false

-- The prefix of a `deletePathPrefix` is a path, as `op_deletePathPrefix()` checks.
abbrev pub HasPath : {B : Type 0} → FileOp B → Type 0
HasPath (delete_path_prefix p) = StoragePath.is_instance p ≡ true
HasPath _ = Unit

abbrev pub Valid : {B : Type 0} → Delta (FileOp B) → Type 0
Valid d = All HasPath d

hits-eq :
    (prefix id : String)
    → StoragePath.is_instance prefix ≡ true
    → hits prefix id ≡ ok (in_prefix prefix id)
unfolding in_prefix hits StoragePath.is_prefix_or_same StoragePath.is_prefix StoragePath.check
hits-eq prefix id h = ground arith

list_has : String → List String → Bool
list_has k [] = false
list_has k (id ∷ ids) = if id == k then true else list_has k ids

module _ {B : Type 0} where
  -- The loop of `deletePathPrefix`, when nothing throws.
  pub drop_hits : String → List String → JsMap String (FileOp B) → JsMap String (FileOp B)
  drop_hits prefix [] m = m
  drop_hits prefix (id ∷ ids) m =
      drop_hits prefix ids (if in_prefix prefix id then JsMap.delete id m else m)

  pub delete_hits-eq :
      (prefix : String) (ids : List String) (m : JsMap String (FileOp B))
      → StoragePath.is_instance prefix ≡ true
      → delete_hits prefix ids m ≡ ok (drop_hits prefix ids m)
  unfolding delete_hits drop_hits
  delete_hits-eq prefix [] m h = refl
  delete_hits-eq prefix (id ∷ ids) m h =
      rw (hits-eq prefix id h)
        (delete_hits-eq prefix ids (if in_prefix prefix id then JsMap.delete id m else m) h)

  get-drop_hits :
      (prefix : String) (ids : List String) (m : JsMap String (FileOp B)) (k : String)
      → JsMap.get k (drop_hits prefix ids m)
        ≡ (if list_has k ids && in_prefix prefix k then none else JsMap.get k m)
  unfolding drop_hits list_has
  get-drop_hits prefix [] m k = refl
  get-drop_hits prefix (id ∷ ids) m k =
      get-drop_hits prefix ids (if in_prefix prefix id then JsMap.delete id m else m) k
      ∙ ground (arith, get-delete id k m, string_eq.beq_iff id k)

  get_absent :
      (k : String) (m : JsMap String (FileOp B))
      → list_has k (JsMap.keys m) ≡ false
      → JsMap.get k m ≡ none
  unfolding list_has JsMap.get
  get_absent k [] h = refl
  get_absent k ((j, o) ∷ m) h = ground (arith, get_absent k m)

  -- The keys of the map are all that the loop has to look at.
  pub get-drop_hits-keys :
      (prefix : String) (m : JsMap String (FileOp B)) (k : String)
      → JsMap.get k (drop_hits prefix (JsMap.keys m) m)
        ≡ (if in_prefix prefix k then none else JsMap.get k m)
  get-drop_hits-keys prefix m k =
      get-drop_hits prefix (JsMap.keys m) m k ∙ elim (Bool-cases (list_has k (JsMap.keys m))) [
        | inl q ↦ rw q
        | inr q ↦ rw (q, get_absent k m q) (ground arith)
      ]

  pub get-delete_indexes :
      (prefix : String) (n left : ℕ) (m : JsMap String (FileOp B)) (k : String)
      → JsMap.get k (delete_indexes prefix n left m)
        ≡ (if in_range prefix n left k then none else JsMap.get k m)
  unfolding delete_indexes in_range
  get-delete_indexes prefix n zero m k = refl
  get-delete_indexes prefix n (suc left) m k =
      get-delete_indexes prefix (n + 1) left (JsMap.delete (StoragePath.indexed prefix n) m) k
      ∙ ground (arith, get-delete (StoragePath.indexed prefix n) k m)

module _ {B : Type 0} (key : FileOp B → String) (is_write : FileOp B → Bool) where
  pub drop_hits-IsDocumentMap :
      (prefix : String) (ids : List String) (m : JsMap String (FileOp B))
      → IsDocumentMap key is_write m
      → IsDocumentMap key is_write (drop_hits prefix ids m)
  unfolding drop_hits
  drop_hits-IsDocumentMap prefix [] m d = d
  drop_hits-IsDocumentMap prefix (id ∷ ids) m d = elim (Bool-cases (in_prefix prefix id)) [
    | inl q ↦ rw q (
        drop_hits-IsDocumentMap prefix ids (JsMap.delete id m)
          (delete-IsDocumentMap key is_write id m d))
    | inr q ↦ rw q (drop_hits-IsDocumentMap prefix ids m d)
  ]

  pub delete_indexes-IsDocumentMap :
      (prefix : String) (n left : ℕ) (m : JsMap String (FileOp B))
      → IsDocumentMap key is_write m
      → IsDocumentMap key is_write (delete_indexes prefix n left m)
  unfolding delete_indexes
  delete_indexes-IsDocumentMap prefix n zero m d = d
  delete_indexes-IsDocumentMap prefix n (suc left) m d =
      delete_indexes-IsDocumentMap prefix (n + 1) left
        (JsMap.delete (StoragePath.indexed prefix n) m)
        (delete-IsDocumentMap key is_write (StoragePath.indexed prefix n) m d)
