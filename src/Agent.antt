-- ===== src/Agent.antt =====
-- The agent surface of src/sqlite: handles, snippets and status changes.
pub mod Handle
pub mod Snippet
pub mod Status
pub mod Knowledge
pub mod Review
