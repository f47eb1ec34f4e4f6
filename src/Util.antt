-- ===== src/Util.antt =====
-- The helpers of include/util and src/util.
pub mod Utf8
pub mod Backoff
pub mod Fs
pub mod Parse
