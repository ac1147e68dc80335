-- ===== src/Doc/Property.antt =====
-- local-modules/@bayou/doc-common: the properties of a document, their changes and their snapshots.
pub mod Op
pub mod Delta
pub mod Snapshot
