-- ===== src/Import.antt =====
-- src/import.cpp: documents and memory files, cut into chunks.
pub mod Chunks
pub mod Documents
pub mod Narrative
pub mod Filing
