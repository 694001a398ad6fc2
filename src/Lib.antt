-- ===== src/Lib.antt =====
-- A model of the core of the astation gateway, and what is proved of it.
--
-- The program's parts and how they interact. The gateway takes events from one connection to Hermes
-- and passes them on to its clients. gateway/domain/event_stream.py is the pump: `EventBroadcaster`
-- gives an event a session identity, holds it while none is proved, bounds its size, numbers it,
-- keeps it for replay and offers it to each client's feed (`_Subscriber`).
-- gateway/domain/event_inbox.py is the durable queue in which the pump records an event before it
-- acts on it. gateway/domain/live_handles.py maps stored session ids to the live handles of one
-- connection. gateway/domain/background_tasks.py is the ledger of background tasks, which
-- gateway/domain/background_ledger.py drives from the pump's completion frames.
-- gateway/domain/runs.py has the operations on the tables of runs and of their events.
-- gateway/domain/run_recorder.py opens a run for the frames of a session, writes their events
-- through gateway/events/persistence.py, and closes the run. gateway/domain/chat_store.py keeps the
-- rows of the chat, which the pump's frames and the routes write, with the reasoning that streamed
-- before each row and its archive. gateway/domain/sandbox_paths.py keeps the paths that a client
-- names inside their roots. gateway/domain/turn_backfill.py gives chat rows without a run one by
-- their times. gateway/domain/transcript.py projects the rows of a transcript that is served.
-- gateway/domain/bookmark_store.py keeps the stars of artifacts. gateway/domain/collection_store.py
-- keeps the ordered sets of artifacts that a user curates. gateway/domain/tags.py and
-- gateway/domain/tag_store.py keep the tags of artifacts and projects.
-- gateway/domain/watch_sessions.py keeps the sessions that are open as a lazy watch.
--
-- Which file models which part:
--   Prelude, Prelude/...  tests on numbers, lists, equality tests, dictionaries, a stable sort
--   Json, Json/Laws       JSON values and objects in insertion order (`get`, `put`, `sorted`)
--   Stream/Wire           the constants of event_stream.py; `json.dumps`, `repr` and the encoding
--   Stream/Frame          `_bounded_client_frame_with_size`, both placeholders, the gateway's frames
--   Stream/Subscriber     `_Subscriber`: `offer`, `_put`, `_desynchronize`, `_release_consumed`
--   Stream/History        `_history`, `_replay`, `replay_available`, `resume_cursor`
--   Stream/Broadcaster    `_fan_out`, `_identity_resync`, `_hold`, `_stamp_session_identity`,
--                         `_deliver`
--   Stream/Broadcaster/Pump  `_forward_one`, `_replay_quarantine`, `_note_connection_generation`,
--                         `_watch_generation`, `inject`, `subscribe`
--   Stream/Identity       `_caches`, `_resolve_identity`; the adapter's own resolver is an argument
--   Inbox                 `EventInbox`: `put`, `bind`, `pending`, `counts`, `acknowledge`
--   Handles               `LiveHandleCache`, every method
--   Background            background_tasks.py: the states of a task and the reads
--   Background/Ledger     `handle_completed`, `orphan_on_startup`, `synthesized_transcript_row`,
--                         `append_finished_background_results`
--   Watch                 `WatchedSessions`, every method
--   Collections           collection_store.py: membership and the curated order
--   Tags                  tags.py and tag_store.py: names, attach, detach, delete, rename
--   Runs                  runs.py: the closes of a run, the sweep, the cursor read
--   Recorder              run_recorder.py: `_handle`, `_open_run_in`, `_sweep`; persistence.py
--   Recorder/Requests     `stored_id_for_request`, `record_synthetic`
--   Chat                  chat_store.py: the rows, `_insert` with its retries, `_write`, `page`
--   Chat/Reasoning        `_hold_reasoning`, `_spend`, `_flush_archive`, `final_reasoning`
--   Chat/Capture          `capture_event` and `_capture`
--   SandboxPaths          sandbox_paths.py, with `posixpath.normpath`
--   TurnBackfill          turn_backfill.py: the spans of runs, the rule, the pass over sessions
--   Transcript            transcript.py, every function
--   Bookmarks             bookmark_store.py, every function
-- The modules below these are for proofs; a module Tests has runs on small data.
--
-- How state and effects are modelled. An object is a record and a method is a function from it to
-- the new one. The broadcaster's methods give an outcome: they return, or they raise and what they
-- wrote stays written. What the environment answers during one call (the clock, fresh ids, the
-- adapter's generation, the resolver of identities, the hooks, whether the inbox answers) is an
-- argument, the record `Oracle` of Stream/Broadcaster, and any number of calls in any order is a
-- list of operations. A dict is an association list in insertion order, a table is the list of its
-- rows. Numbers are natural; where the source subtracts, the model's subtraction stops at 0, which
-- the invariants show is not reached or which the source's comparison treats alike. Every loop is a
-- recursion on its list, so no fuel is needed; the loop of `_insert` counts its five attempts down,
-- as the source does.
--
-- Not modelled: the asyncio tasks around the pump, the rescue of sessions after a reconnect,
-- logging, the adapters, the HTTP routes, the configuration, and the stores for artifacts,
-- snapshots and audit data, which are mostly input and output. A database that fails is modelled
-- where the source handles it (the inbox, the ledger, the chat and its archive, the recorder), and
-- otherwise taken to answer.
pub mod Prelude
pub mod Handles
pub mod Json
pub mod Stream
pub mod Inbox
pub mod Background
pub mod Watch
pub mod Runs
pub mod Collections
pub mod Tags
pub mod Recorder
pub mod Chat
pub mod SandboxPaths
pub mod TurnBackfill
pub mod Transcript
pub mod Bookmarks
