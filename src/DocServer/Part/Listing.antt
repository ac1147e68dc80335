-- ===== src/DocServer/Part/Listing.antt =====
-- The listing of changes in local-modules/@bayou/doc-server/BaseControl.js.
use Prim.Native.Char.{code}
use Prim.Native.String.{◌++◌ as str_append}
use bayou.Prelude.{
  ℕ, suc, Bool, true, false, ◌||◌, ◌&&◌, none, List, [], ◌∷◌, String, Result, ok, bad_value,
  ◌>>=◌ as bind, leb, ltb, ◌==◌, nat_eq, if◌then◌else◌,
}
use bayou.Prelude.Int.{ℤ, pos, negsuc}
use bayou.JsMap
use bayou.Ot.Snapshot.{Snapshot}
use bayou.FileStore.StoragePath
use bayou.FileStore.StoragePath.Index.{get_index}
use bayou.FileStore.Op.{FileOp}
use bayou.FileStore.Snapshot.{get_path_range}
use bayou.FileStore.BaseFile
use bayou.FileStore.BaseFile.{Call, ◌>>=◌, ◌>>◌, return, check_that}
use bayou.DocServer.BaseControl.{lift}
use bayou.DocServer.Part.{Part, change_path_prefix}

-- The order of `sort()`: numbers stand in the order of their texts.
unfoldable pub text_leb : String → String → Bool
text_leb String.[] t = true
text_leb (String.◌∷◌ c s) String.[] = false
text_leb (String.◌∷◌ c s) (String.◌∷◌ d t) =
    ltb (code c) (code d) || (code c == code d && text_leb s t)

-- `${n}`
abbrev pub text_of : ℤ → String
text_of (pos n) = StoragePath.decimal n
text_of (negsuc n) = str_append "-" (StoragePath.decimal (suc n))

unfoldable pub insert : ℤ → List ℤ → List ℤ
unfolding text_leb
insert n [] = n ∷ []
insert n (m ∷ ms) =
    let rest = insert n ms in if text_leb (text_of n) (text_of m) then n ∷ m ∷ ms else m ∷ rest

-- `sort()`
unfoldable pub sort : List ℤ → List ℤ
unfolding insert
sort [] = []
sort (n ∷ ns) = insert n (sort ns)

-- The loop over the paths.
unfoldable pub indexes : List String → Result (List ℤ)
indexes [] = ok []
indexes (path ∷ paths) =
    bind (get_index path) λ index. bind (indexes paths) λ rest. ok (index ∷ rest)

module _ {Op B S : Type 0} (part : Part Op B S) where
  unfoldable pub listed_in : Snapshot (FileOp B) → ℕ → ℕ → Result (List ℤ)
  unfolding indexes sort
  listed_in snapshot start end =
      bind (get_path_range part.hash part.is_hash snapshot (change_path_prefix part) start end)
        λ paths. bind (indexes (JsMap.keys paths)) λ result. ok (sort result)

  unfoldable pub list_change_range : ℕ → ℕ → Call S (List ℤ)
  list_change_range start end = do
    check_that (leb start end) bad_value
    if start == end then return [] else (do
      snapshot ← BaseFile.get_snapshot part.file none
      lift (listed_in snapshot start end))
