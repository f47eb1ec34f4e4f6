-- ===== src/Fts.antt =====
-- src/fts_tokenize.cpp: from a text to the terms of the index.
pub mod Sentences
pub mod Words
pub mod Tokens
