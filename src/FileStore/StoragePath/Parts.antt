-- ===== src/FileStore/StoragePath/Parts.antt =====
-- The components of a path, in local-modules/@bayou/file-store-ot/StoragePath.js.
use Prim.Native.Char.{Char, code}
use Prim.Native.String.{◌++◌ as str_append}
use bayou.Prelude.{
  Option, none, some, List, [], ◌∷◌, String, ◌==◌, nat_eq, Result, ok, ◌>>=◌, if◌then◌else◌,
}
use bayou.FileStore.StoragePath.{check, check_component}

-- `components.join('/')`
unfoldable pub join_slashes : List String → String
join_slashes [] = ""
join_slashes (s ∷ []) = s
join_slashes (s ∷ t ∷ ts) = str_append s (str_append "/" (join_slashes (t ∷ ts)))

-- `TArray.check()`, with the check of a component.
unfoldable pub check_each : List String → Result (List String)
check_each [] = ok []
check_each (s ∷ ss) = do t ← check_component s; ts ← check_each ss; ok (t ∷ ts)

unfoldable pub join : List String → Result String
unfolding check_each join_slashes
join parts = do checked ← check_each parts; ok (str_append "/" (join_slashes checked))

-- A character in front of the first of some texts.
abbrev onto_first : Char → List String → List String
onto_first c [] = String.◌∷◌ c "" ∷ []
onto_first c (s ∷ ss) = String.◌∷◌ c s ∷ ss

-- `split('/')`
unfoldable pub split_slashes : String → List String
split_slashes String.[] = "" ∷ []
split_slashes (String.◌∷◌ c s) =
    let rest = split_slashes s in if code c == b'/' then "" ∷ rest else onto_first c rest

-- `slice(1)`
abbrev pub behind_first : String → String
behind_first String.[] = ""
behind_first (String.◌∷◌ c s) = s

unfoldable pub split : String → Result (List String)
unfolding split_slashes
split path = do checked ← check path; ok (split_slashes (behind_first checked))

-- `orNull()`
unfoldable pub or_null : Option String → Result (Option String)
unfolding check
or_null none = ok none
or_null (some value) = do checked ← check value; ok (some checked)

-- The loop of `allPrefixes()`, over the components but the last.
unfoldable pub prefixes_from : String → List String → List String
prefixes_from so_far [] = []
prefixes_from so_far (c ∷ []) = []
prefixes_from so_far (c ∷ d ∷ ds) =
    let longer = str_append so_far (str_append "/" c) in longer ∷ prefixes_from longer (d ∷ ds)

unfoldable pub all_prefixes : String → Result (List String)
unfolding split prefixes_from
all_prefixes path = do parts ← split path; ok (prefixes_from "" parts)
