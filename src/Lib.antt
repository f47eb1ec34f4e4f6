-- ===== src/Lib.antt =====
-- Ragger is a memory server: it captures the turns of conversations, has a model summarize them in the
-- background, indexes texts for search, and lets agents and people read and curate what is kept. This
-- library models its own logic, part by part, and proves what makes the parts correct.
--
-- Bytes. A std::string is the list of its bytes (Prelude/Text). A size is a natural number; the product
-- in the budget of a summary wraps around at 64 bits as in the code.
--
-- Files and what they model:
--   Util: include/util/utf8.h (Utf8), include/backoff.h (Backoff), include/util/parse.h (Parse) and the
--     path helpers of src/util/fs.cpp (Fs).
--   Summarizer: src/summarizer.cpp. `make_budget` (Budget), `strip_thinking` (Thinking), the notes in
--     front of a user turn (Markers), `summarize_transcript` and `summarize_texts` (Transcript). The
--     model is an argument: any function from messages to an answer or a failure.
--   Sqlite: the statements of src/sqlite/write.cpp on `turns` and `turn_summaries` (Turns), as functions
--     on a table, `store_episode_close` with its rollback (Episodes), what is pending for an episode
--     (Pending), `store_turn` and its merging (Capture), `update_turn_meta`, `finalize_turn` and
--     the deletion of old turns (Capture/Corrections), `normalize_path` (Paths), and the writes to
--     `knowledge` (Knowledge, Curation), with the deletions of src/sqlite/maintenance.cpp. Curation/Chain
--     has every write to that table, `agent_update` among them, as a step. Of src/sqlite/text_index.cpp:
--     terms and postings (Terms) and `reindex_table` (Reindex).
--   Service: src/summarizer_service.cpp. `handle_l2` is a function on the state (Turn). The threads are a
--     step relation (Queue): a live turn is queued, the catch-up scan takes one of the steps between
--     which it holds no lock, or the worker takes a job. The worker calls `handle_l2`, which calls
--     the summarizer and then the statements of Sqlite; the scan reads `unsummarized_turns` and resets
--     abandoned rows under the back-off. Boundaries is src/episode_boundaries.cpp over a type of floats
--     given by its operations, and Episode is `handle_episode_close`: candidates from Sqlite, segments,
--     a summary of each from the summarizer, and one `store_episode_close` to a segment. Queue/Closing
--     puts it on the tables of the other jobs, by the columns that the two have in common.
--   Memory: src/recipe.cpp (Recipe), and of src/memory.cpp `build_context` (Context), for which the
--     backend's lists and the search are arguments, and the re-embedding (Reembed), with the passes of
--     src/sqlite/maintenance.cpp over the rows: the process may die behind any setting or row.
--   Fts and TextIndex: src/fts_tokenize.cpp and `index_record` of src/text_index.cpp. The stemmer and the
--     phonetic coder are arguments.
--   Agent: the typed handles and snippets of src/sqlite/agent_common.cpp (Handle, Snippet), the statuses
--     of src/sqlite/status.cpp (Status), `agent_update` and `agent_review` of src/sqlite/agent_write.cpp
--     (Knowledge, Review). A refused update is a value that names the reason and carries no table.
--   Auth: src/auth.cpp. PBKDF2 and random bytes are arguments.
--   Config: the checks on a setting in src/config_access.cpp.
--   Import: the chunking and filing of src/import.cpp.
--   Tests: runs at small inputs.
--
-- Fuel. The loops of `strip_thinking`, of `strip_system_injected_prefix` and of `normalize_path` run on
-- fuel, the length of the text: each round removes at least one byte of what is still to be read.
-- `reindex_table` runs on fuel: each round takes at least one row.
-- Every other loop is structural recursion on the bytes, rows or jobs that it visits.
--
-- Not modelled: the HTTP server, MCP, the command line, the client, inference and embedding, which are
-- I/O; SQL that fills JSON; schema and migrations; a database that fails; ranking on floats; regular expressions; log lines.
pub mod Prelude
pub mod Util
pub mod Summarizer
pub mod Sqlite
pub mod Memory
pub mod Service
pub mod Fts
pub mod TextIndex
pub mod Agent
pub mod Import
pub mod Auth
pub mod Config
pub mod Tests
