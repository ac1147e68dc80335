-- ===== src/DocServer/PropertyControl.antt =====
-- local-modules/@bayou/doc-server/PropertyControl.js
pub mod Laws
use bayou.Prelude.{ℕ, suc, ◌≡◌, true, Eq, Result, ok}
use bayou.Ot.Change.{Change}
use bayou.Ot.Snapshot
use bayou.Ot.Snapshot.{Snapshot}
use bayou.Doc.Property.Op.{PropertyOp}
use bayou.Doc.Property.Delta.{property_class}
use bayou.FileStore.BaseFile.{Call, ◌>>=◌, return}
use bayou.DocServer.BaseControl.{Control, Rebase, lift, get_composed_changes}

module _ {V S : Type 0} ⦃e : Eq V⦄ (control : Control (PropertyOp V) S) where
  -- `_impl_rebase()`
  unfoldable pub impl_rebase : Rebase (PropertyOp V) S
  impl_rebase ch base expected current = do
    final_contents ←
        get_composed_changes property_class control.get_change_range expected.contents
          (suc base.rev_num) (suc current.rev_num) true
    final ← lift (Snapshot.make property_class (suc current.rev_num) final_contents)
    difference ← lift (Snapshot.diff property_class control.impl_diff_as_delta current final)
    return (record difference { timestamp = ch.timestamp; author_id = ch.author_id })
