-- ===== src/DocServer/Part/Log.antt =====
-- What the paths of a part hold in a snapshot of the file: about
-- local-modules/@bayou/doc-server/BaseControl.js.
use bayou.Prelude.{
  ℕ, suc, ◌≤◌, ◌≡◌, true, Option, none, some, List, string_eq, Eq, nat_eq, ok, leb, length, nth,
  if◌then◌else◌,
}
use bayou.Prelude.Int.{ℤ, pos}
use bayou.Ot.Change.{Change}
use bayou.Ot.Snapshot.{Snapshot}
use bayou.Ot.Snapshot.History.{Numbered}
use bayou.FileStore.StoragePath
use bayou.FileStore.FileLaws.{FileLaws}
use bayou.FileStore.Op.{FileOp}
use bayou.FileStore.Snapshot.Laws.{IsDocument, blob_at}
use bayou.DocServer.Part.{
  Part, Value, number_value, change_value, revision_number_path, path_for_change,
}

module _ {Op B S : Type 0} (part : Part Op B S) where
  -- What a part relies on: its prefix is a path, the codec decodes what it encodes, a hash is one,
  -- and two numbers do not share it.
  pub record IsPart : Type 0 where
    pub is_path : StoragePath.is_instance part.path_prefix ≡ true
    pub decode-encode : (v : Value Op) → part.decode (part.encode v) ≡ ok v
    pub hash-is_hash : (b : B) → part.is_hash (part.hash b) ≡ true
    pub hash-inj :
        (m n : ℤ)
        → part.hash (part.encode (number_value m)) ≡ part.hash (part.encode (number_value n))
        → m ≡ n

  abbrev pub encoded : Option (Change Op) → Option B
  encoded none = none
  encoded (some ch) = some (part.encode (change_value ch))

  -- What is stored for a change of the log, whose first `oldest` changes are gone.
  abbrev pub stored : List (Change Op) → ℕ → ℕ → Option B
  stored log oldest i = if leb oldest i then encoded (nth i log) else none

  -- The snapshot of the file holds the part with these changes.
  pub record IsLog (v : Snapshot (FileOp B)) (log : List (Change Op)) (current oldest : ℕ)
      : Type 0 where
    pub document : IsDocument part.hash v
    pub count : length log ≡ suc current
    pub numbered : Numbered 0 log
    pub kept : oldest ≤ current
    pub revision :
        blob_at part.hash v (revision_number_path part)
        ≡ some (part.encode (number_value (pos current)))
    pub changes : (i : ℕ) → blob_at part.hash v (path_for_change part i) ≡ stored log oldest i

  module _ ⦃e : Eq B⦄ (size : B → ℕ) (laws : FileLaws part.hash size part.file) where
    -- The part in the file of a state.
    pub record Holds (s : S) (log : List (Change Op)) (current oldest : ℕ) : Type 0 where
      pub view : Snapshot (FileOp B)
      pub shows : laws.Shows s view
      pub is_log : IsLog view log current oldest
