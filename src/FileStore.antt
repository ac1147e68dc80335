-- ===== src/FileStore.antt =====
-- local-modules/@bayou/file-store-ot: the storage of a file, as deltas and snapshots; and the class
-- of files of local-modules/@bayou/file-store.
pub mod StoragePath
pub mod Op
pub mod Delta
pub mod Snapshot
pub mod BaseFile
pub mod FileLaws
