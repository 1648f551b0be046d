-- ===== src/Lib.antt =====
-- Verification of the proxy of Sovereign Engine (proxy/src): reservations of the GPU host, the
-- scheduler's queue, gate and resolver, API tokens, the supervision of the backend containers, and the
-- translation between Anthropic's API and the backend's, sessions, and the encryption of secrets.
--
-- Parts, files and sources
-- Reservation.antt and Reservation/: proxy/src/api/reservation.rs, proxy/src/scheduler/reservation.rs
--   and the parts of proxy/src/api/error.rs and proxy/src/scheduler/mod.rs that they use. A World is
--   the table of reservations, the scheduler's cache of the active one and the count of broadcast
--   signals. Requests has the user's handlers, Admin the admin's, Tick the background tick and the
--   recovery at start, Steps the machine whose calls are all of these. Rows, Overlap, Cache,
--   Coherence, History hold the invariants; Booking, Access, Ticks what single operations do;
--   Cases the branches of each operation as rules.
-- Scheduler/Queue.antt: RequestQueue of proxy/src/scheduler/queue.rs; Queue/Order its choice.
-- Scheduler/Gate.antt: ConcurrencyGate and AcquiredSlot of proxy/src/scheduler/gate.rs, with the
--   interleavings of the tasks as the relation Step; Slots its invariant, Reregister a second
--   registration.
-- Scheduler/Resolver.antt: proxy/src/scheduler/resolver.rs, the choice of the model for a request;
--   Resolver/Scope what a token bound to a category reaches.
-- Auth.antt and Auth/Lifecycle: API tokens, proxy/src/auth/tokens.rs.
-- Runtime.antt and Runtime/Laws: proxy/src/docker/runtime_overrides.rs, and the configuration of a
--   container in proxy/src/docker/llamacpp.rs.
-- Supervisor.antt and Supervisor/: proxy/src/supervisor and the code around it. Supervisor.antt is
--   the state machine of a backend (transition), Probes its runs. Store is the state that the
--   following share: the tables models, container_secrets and backend_crash_log, the maps of
--   AppState, the gate, and the containers that were launched. Config is rebuild_llamacpp_config;
--   Lifecycle and Start the functions of proxy/src/api/common.rs and record_worked of
--   proxy/src/proxy/streaming.rs; Kick is handle_kick with restart_after_crash and
--   quarantine_model; Recover is recover_gate_state of proxy/src/main.rs. Holder has the handlers
--   with which the holder of a reservation starts and stops a container. Crash, Panics and Stops
--   have what follows from them.
-- Anthropic.antt and Anthropic/: proxy/src/api/anthropic.rs. Anthropic.antt has JSON values and the
--   types of the backend's stream, Request the translation of a request, Response that of a response,
--   Stream the state machine of transform_stream and Stream/Lines its buffer. Stream/Protocol says what
--   Anthropic's protocol asks; Stream/Blocks, Calls, Kept, Chunks and Closes keep it; Stream/Contents
--   has what the events carry, Stream/Buffer and Reads how the reads are cut into lines. Spoken and
--   Turns follow a conversation through the translations.
--   Messages is the handler.
-- Inference.antt: a request to /v1 from its token to the backend: proxy/src/api/openai.rs, the wait for
--   a slot of proxy/src/scheduler/gate.rs, proxy_to_backend of proxy/src/proxy/streaming.rs and
--   proxy/src/scheduler/usage.rs; Inference/Access who is served.
-- Session.antt: proxy/src/auth/sessions.rs, proxy/src/auth/bootstrap.rs; Session/Cookies the middleware
--   of proxy/src/auth/mod.rs, Session/Headers the headers of proxy/src/proxy/webui.rs, Session/Gate who
--   passes. Session/Login and Session/Oidc are proxy/src/auth/oidc.rs: the login with the bootstrap
--   credentials and its limit, of which Login/Limit counts the attempts, and the login at a provider,
--   of which Oidc/Callback has the return, Users the account, Opened the session and Whose both.
-- Secrets.antt and Secrets/Migration: proxy/src/db/crypto.rs.
-- Gguf.antt and Gguf/: the reader of model files in proxy/src/api/hf.rs. Gguf.antt has the readers of
--   values, Metadata the entries; Format describes such a file on its own, Values, Arrays, Names, Reads
--   and File follow the reader through it, Others has an array of the wrong type. Gguf/Estimate is what
--   the metadata are for: compute_kv_aggregates, and estimate_kv_cache_mb and estimate_vram of
--   proxy/src/api/admin.rs; Legacy compares its two ways.
-- Downloads.antt and Downloads/: the downloads of proxy/src/api/hf.rs. Downloads.antt is the map of
--   downloads with its handlers, Files the choice of files (with pick_mmproj_variant and the backfill of
--   proxy/src/main.rs, which Variants compares), Run the task, Kept and Ends its end.
-- Admin.antt and Admin/: the deletion of a model in proxy/src/api/admin.rs. Narrow and Scope follow
--   the tokens through it, Widened one that is created meanwhile; Settled has what each answer leaves.
-- Prelude.antt and Prelude/: Boolean tests, lists, table statements, maps, integers, results, texts.
--
-- How they interact: the gate wakes requests of the queue; a start, a crash, a recovery and a stop
-- register and unregister the gate; a request to /v1 passes the token, the resolver, the reservation's
--   cache and the gate in that order; the handlers of reservations guard the start and the stop of a
--   container by the scheduler's cache.
--
-- Conventions
-- A handler gets what it meets from outside as an Env: which of its database statements fail, what
--   Docker and the backend answer, the clock and the database's time stamp. An SQL statement on a
--   table is a function on the list of rows; of unordered results the first row is taken, and texts
--   compare bytewise as in SQLite, the times of reservations too, which is the order of time for padded
--   ones. A table with one row for a text key is a map.
-- chrono's parser of times is the parameter parse_iso_time, with results in seconds; the JSON reader
--   and writer, the hash of a token, the launch of a container and the draw of a user id are
--   parameters too. The library openidconnect, with what it asks of a provider, is the record Openid.
-- Priorities are f64 in the source: a type with the answer of partial_cmp as a parameter, whose
--   laws are the hypothesis IsTotalOrder.
-- An i64 of the estimates is its 64 bits, the sums of the sizes in a repository wrap, the counts of
--   bytes that arrive are not cut off, and the percentage of a disk, in floating point, is a parameter.
-- An Instant is a number of nanoseconds; a cast from i64 to u32 is written out.
-- A panic of the supervisor's task is the result none of handle_kick.
-- While a request to /v1 waits for a slot, others may change all that is shared. A download whose
--   connection stalls waits for ever: its outcome is `waiting`.
-- A handler is one step. Two requests that interleave between their statements are not modelled,
--   except in the gate, where each holding of a lock is one step, in a download, where others act
--   before each piece of a file, and in the deletion of a model, where tokens are created behind its
--   check. The texts of errors leave out what the database says.
-- The loop over the lines of a buffer has the length of the buffer as fuel, which is enough, since each
--   round drops a newline at least. Nested arrays of a model file have the length of the file as fuel,
--   which is enough, since each level has bytes of its own; the thread's stack, on which the source
--   recurses, has no bound here. All other loops are recursions on lists or
--   on the numbers that bound them.
-- The events of a stream stand newest first. A client that leaves early has seen a beginning of them.
--
-- Not modelled: fairness and settings (floating point), metrics, most handlers of the administration,
-- the searches at Hugging Face, the logs of crashed containers, the user interface, and
-- everything that Docker, HTTP, TLS and the database do on their own.
pub mod Admin
pub mod Anthropic
pub mod Auth
pub mod Downloads
pub mod Gguf
pub mod Inference
pub mod Prelude
pub mod Reservation
pub mod Runtime
pub mod Scheduler
pub mod Secrets
pub mod Session
pub mod Supervisor
