-- ===== src/Summarizer.antt =====
-- src/summarizer.cpp: what is asked of the model for a summary, and what is kept of its answer.
pub mod Budget
pub mod Thinking
pub mod Markers
pub mod Transcript
