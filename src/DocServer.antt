-- ===== src/DocServer.antt =====
-- local-modules/@bayou/doc-server: the control of a part of a document.
pub mod Part
pub mod BaseControl
pub mod Keeping
pub mod PropertyControl
pub mod SnapshotManager
pub mod CaretControl
