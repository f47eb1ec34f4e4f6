-- ===== src/Sqlite.antt =====
-- The storage backend of src/sqlite, its tables as lists of rows.
pub mod Paths
pub mod Turns
pub mod Episodes
pub mod Pending
pub mod Capture
pub mod Curation
pub mod Knowledge
pub mod Terms
pub mod Reindex
