-- ===== src/Tests.antt =====
-- Tests of the model, and an instance of each theorem.
pub mod Runs
pub mod Summaries
pub mod Storage
pub mod Surface
pub mod Access
pub mod Texts
mod Episodes
mod Knowledge
mod Capture
mod Context
mod Index
mod Reembed
