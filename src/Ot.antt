-- ===== src/Ot.antt =====
-- local-modules/@bayou/ot-common: deltas, changes, snapshots, revision numbers and timestamps.
pub mod Delta
pub mod Timestamp
pub mod RevisionNumber
pub mod Change
pub mod Snapshot
