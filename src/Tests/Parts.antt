-- ===== src/Tests/Parts.antt =====
-- A concrete part of a document, in a file that is kept locally: local-modules/@bayou/doc-server. A
-- blob is the value that it encodes.
use Prim.Native.Char.{code}
use Prim.Native.String.{◌++◌ as str_append}
use text.Mathlib.Text.{starts_with}
use text.Mathlib.TextLemmas.{append_cancel_left, cons-append}
use text.Mathlib.TextPositions.{starts_with-append}
use bayou.Prelude.{
  ℕ, ◌≡◌, refl, sym, ◌∙◌, ap, Bool, true, false, ◌||◌, none, some, List, [], ◌∷◌, String, Result,
  ok, nat_eq, string_eq, arith,
}
use bayou.Prelude.Int.{ℤ, pos, negsuc}
use bayou.Ot.Change.{Change, change, first}
use bayou.Ot.Snapshot.{empty}
use bayou.Ot.Snapshot.Chunks.{compose_each}
use bayou.Doc.Property.Op.{PropertyOp}
use bayou.FileStore.StoragePath
use bayou.FileStore.StoragePath.Decimals.{value-decimal}
use bayou.FileStore.StoragePath.Index.{value_from}
use bayou.FileStore.Op.{FileOp}
use bayou.FileStore.Delta.{impl_is_document, is_document_from, file_class}
use bayou.FileStore.Delta.Laws.{file_laws}
use bayou.FileStore.FileLaws.{FileLaws}
use bayou.FileStoreLocal.SparseArray.{full}
use bayou.FileStoreLocal.LocalFile.{LocalFile, make, local_file}
use bayou.FileStoreLocal.LocalFile.Memory.{IsFile}
use bayou.FileStoreLocal.LocalFile.Contract.{Shown-Shows, local_file-FileLaws}
use bayou.DocServer.Part.{
  Part, Value, change_value, number_value, snapshot_value, other_value, stored_snapshot_in,
}
use bayou.DocServer.Part.Log.{IsPart, Holds}
use bayou.DocServer.Part.Init.{init_ops, init_ops-IsLog}
use bayou.Tests.Values.{value_eq}

abbrev pub Stored : Type 0
Stored = Value (PropertyOp ℕ)

abbrev pub hash : Stored → String
hash (number_value (pos n)) = str_append "=" (StoragePath.decimal n)
hash (number_value (negsuc n)) = str_append "~" (StoragePath.decimal n)
hash _ = "="

abbrev pub is_hash : String → Bool
is_hash s = starts_with s "=" || starts_with s "~"

pub hash-is_hash : (v : Stored) → is_hash (hash v) ≡ true
hash-is_hash (number_value (pos n)) = rw (starts_with-append "=" (StoragePath.decimal n)) refl
hash-is_hash (number_value (negsuc n)) =
    ground (arith, starts_with-append "~" (StoragePath.decimal n))
hash-is_hash (change_value _) = refl
hash-is_hash (snapshot_value _) = refl
hash-is_hash other_value = refl

abbrev pub mark : String → ℕ
mark String.[] = 0
mark (String.◌∷◌ c s) = code c

pub decimal-inj :
    (t : String) (m n : ℕ)
    → str_append t (StoragePath.decimal m) ≡ str_append t (StoragePath.decimal n)
    → m ≡ n
decimal-inj t m n e =
    sym (value-decimal m)
    ∙ ap (value_from 0) (append_cancel_left t (StoragePath.decimal m) (StoragePath.decimal n) e)
    ∙ value-decimal n

pub differ :
    (m n : ℕ) → str_append "=" (StoragePath.decimal m) ≡ str_append "~" (StoragePath.decimal n) → ⊥
differ m n e =
    let h : b'=' ≡ b'~' =
      sym (ap mark (cons-append "=" "" (StoragePath.decimal m)))
      ∙ ap mark e
      ∙ ap mark (cons-append "~" "" (StoragePath.decimal n)) in
    ground (arith, h)

pub hash-inj : (m n : ℤ) → hash (number_value m) ≡ hash (number_value n) → m ≡ n
hash-inj (pos m) (pos n) e = ap pos (decimal-inj "=" m n e)
hash-inj (negsuc m) (negsuc n) e = ap negsuc (decimal-inj "~" m n e)
hash-inj (pos m) (negsuc n) e = absurd (differ m n e)
hash-inj (negsuc m) (pos n) e = absurd (differ n m (sym e))

abbrev pub FileChange : Type 0
FileChange = Change (FileOp Stored)

abbrev pub State : Type 0
State = LocalFile (FileOp Stored) FileChange

abbrev pub size : Stored → ℕ
size v = 1

abbrev pub encode : FileChange → FileChange
encode ch = ch

abbrev pub read_storage : State → Result (Unit {0}) × State
read_storage s = (ok tt, s)

-- A durable or an ephemeral part.
abbrev pub part_of : Bool → Part (PropertyOp ℕ) Stored State
part_of ephemeral = record {
  path_prefix = "/prop";
  ephemeral = ephemeral;
  hash = hash;
  is_hash = is_hash;
  encode = λ v. v;
  decode = λ v. ok v;
  file = local_file (file_class hash size) encode read_storage;
}

pub part_of-IsPart : (ephemeral : Bool) → IsPart (part_of ephemeral)
unfolding StoragePath.is_instance StoragePath.components
part_of-IsPart ephemeral = record {
  is_path = refl;
  decode-encode = λ v. refl;
  hash-is_hash = hash-is_hash;
  hash-inj = hash-inj;
}

abbrev pub part : Part (PropertyOp ℕ) Stored State
part = part_of false

abbrev pub part-IsPart : IsPart part
part-IsPart = part_of-IsPart false

abbrev pub brief : Part (PropertyOp ℕ) Stored State
brief = part_of true

abbrev pub brief-IsPart : IsPart brief
brief-IsPart = part_of-IsPart true

pub empty_document : impl_is_document hash [] ≡ true
unfolding impl_is_document is_document_from
empty_document = refl

abbrev pub laws : FileLaws hash size part.file
laws = local_file-FileLaws hash size empty_document encode read_storage

abbrev pub set_up : Bool → List FileChange
set_up ephemeral = change 1 (init_ops (part_of ephemeral) (part_of-IsPart ephemeral)) ∷ []

-- A file whose one change sets the part up.
abbrev pub state_of : Bool → State
state_of ephemeral = record {
  changes = full (first ∷ set_up ephemeral);
  snapshot = ok (some empty);
  should_exist = some true;
  to_write = [];
  dirty = false;
  ready = some (ok tt);
  change_condition = (make {Op = FileOp Stored} {Buffer = FileChange}).change_condition;
  flushes = 0;
}

abbrev pub state : State
state = state_of false

pub state_of-IsFile :
    (ephemeral : Bool) → IsFile (file_laws hash size) (state_of ephemeral) first (set_up ephemeral)
unfolding compose_each StoragePath.is_instance StoragePath.components
state_of-IsFile ephemeral = record {
  exists = refl;
  holds = refl;
  numbered = (refl, tt);
  valid = ((refl, (tt, (tt, tt))), tt);
  kept_at = 0;
  kept_bound = omega arith;
  kept = record {
    to = empty;
    runs = refl;
    document = empty_document;
    valid = tt;
    rev = omega arith;
  };
  keeps = refl;
}

pub started_as :
    (ephemeral : Bool)
    → (h : Holds (part_of ephemeral) size laws (state_of ephemeral) (first ∷ []) 0 0)
      × (stored_snapshot_in (part_of ephemeral) h.view ≡ ok none)
unfolding compose_each
started_as ephemeral =
    let (w, _, composed, is_log, nothing) =
      init_ops-IsLog (part_of ephemeral) (part_of-IsPart ephemeral) size empty 1 empty_document in
    (
      record {
        view = w;
        shows =
            Shown-Shows hash size empty_document encode read_storage (state_of ephemeral) w
              (record {
                head = first;
                changes = set_up ephemeral;
                is_file = state_of-IsFile ephemeral;
                shows = rw composed refl;
              });
        is_log = is_log;
      },
      nothing,
    )

pub started :
    (h : Holds part size laws state (first ∷ []) 0 0) × (stored_snapshot_in part h.view ≡ ok none)
started = started_as false
