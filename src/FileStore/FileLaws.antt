-- ===== src/FileStore/FileLaws.antt =====
-- What the users of local-modules/@bayou/file-store/BaseFile.js rely on, for the files of
-- local-modules/@bayou/file-store-ot.
use bayou.Prelude.{ℕ, suc, ◌≤◌, ◌≡◌, true, false, none, String, ok, Eq}
use bayou.Ot.Change.{Change}
use bayou.Ot.Snapshot
use bayou.Ot.Snapshot.{Snapshot}
use bayou.FileStore.BaseFile
use bayou.FileStore.BaseFile.{FileImpl}
use bayou.FileStore.Op.{FileOp}
use bayou.FileStore.Delta.{file_class}
use bayou.FileStore.Delta.Meaning.{Valid}
use bayou.FileStore.Snapshot.Laws.{IsDocument}

-- What a file promises its users: a snapshot that it shows, which reading gives, and to which
-- appending the next change composes that change.
pub record FileLaws {B S : Type 0} (hash : B → String) ⦃e : Eq B⦄ (size : B → ℕ)
    (file : FileImpl (FileOp B) S) : Type 1 where
  pub Shows : S → Snapshot (FileOp B) → Type 0
  pub document : (s : S) (v : Snapshot (FileOp B)) → Shows s v → IsDocument hash v
  pub read :
      (s : S) (v : Snapshot (FileOp B))
      → Shows s v
      → (t : S) × Shows t v × (BaseFile.get_snapshot file none s ≡ (ok v, t))
  pub number :
      (s : S) (v : Snapshot (FileOp B))
      → Shows s v
      → (t : S) × Shows t v × (BaseFile.current_rev_num file s ≡ (ok v.rev_num, t))
  pub append :
      (s : S) (v : Snapshot (FileOp B)) (ch : Change (FileOp B))
      → Shows s v
      → Valid ch.delta
      → ch.rev_num ≡ suc v.rev_num
      → (t : S) × (w : Snapshot (FileOp B)) × Shows t w
        × (Snapshot.compose (file_class hash size) v ch ≡ ok w)
        × (BaseFile.append_change file ch s ≡ (ok true, t))
  pub stale :
      (s : S) (v : Snapshot (FileOp B)) (ch : Change (FileOp B))
      → Shows s v
      → Valid ch.delta
      → ch.rev_num ≤ v.rev_num
      → (t : S) × Shows t v × (BaseFile.append_change file ch s ≡ (ok false, t))
