-- ===== src/Service.antt =====
-- `SummarizerService` of src/summarizer_service.cpp: the queue, the scan and the worker. Each method
-- that holds the mutex is one step; the time and the answer of `episodes_needing_close` are arguments.
-- Log lines are left out.
pub mod Turn
pub mod Queue
pub mod Boundaries
pub mod Episode
