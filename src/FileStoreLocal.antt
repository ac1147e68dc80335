-- ===== src/FileStoreLocal.antt =====
-- local-modules/@bayou/file-store-local: files that are kept in memory and written to a directory.
pub mod SparseArray
pub mod Names
pub mod LocalFile
pub mod Storage
