-- ===== src/DocServer/PropertyControl/Laws.antt =====
-- About the updates by local-modules/@bayou/doc-server/PropertyControl.js of a snapshot that is not
-- current.
use bayou.Prelude.{nat_eq, string_eq}
use bayou.Ot.Delta.{Delta}
use bayou.Ot.Change.{Change}
use bayou.Ot.Snapshot.{Snapshot}
