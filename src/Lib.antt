-- ===== src/Lib.antt =====
-- The SQL outlet of WhaleTracker (src/*.rs of the repository): game servers send batches of SQL
-- writes over TCP; the outlet admits a batch within its limits, writes it to a journal, queues it
-- on one of three lanes, executes it, marks it as done in the journal, and acknowledges it. After
-- a restart the journal gives back what was not executed.
--
-- Which file models which part:
--   Sql        src/sql.rs: `head_tokens` is Sql.Tokens, `target_table_from_tokens`,
--              `lane_for_table` and `invalidates_table` Sql.Target, `validate_single_statement`
--              Sql.Statement, `validate_log_player_write` Sql.LogRate, `validate_and_classify`
--              Sql.Classify, the lanes Sql.Lane
--   Admission  src/admission.rs: `Admission` and `Permit`; Admission.Completion is `Completion`,
--              Admission.Dedupe is `Dedupe`
--   Reader     the `BufRead` of src/journal.rs and src/protocol.rs, as a list of chunks
--   Journal    src/journal.rs: one record (`apply_record`), `read_state` in Journal.Load, the
--              `Journal` with its file in Journal.File, `Journal::open` with src/journal_lock.rs
--              in Journal.Lock
--   Sink       src/sink.rs: the state of `SqlSink`; `enqueue`, `publish_writes` and `replay` in
--              Sink.Publish, the body of `worker_loop` and `confirm_committed` in Sink.Work, all of
--              them as steps of one machine in Sink.Steps
--   Protocol   src/protocol.rs: `read_frame` in Protocol.Frame, `materialize` in Protocol.Message,
--              `handle_client` on one line in Protocol.Session and its loop in Protocol.Client,
--              `encode_line` in Protocol.Encode; Protocol.Placed joins it to Sql
--   Config     src/config.rs: `Config`, `number`, `boolean`
--   Limits     src/runtime_limits.rs: `ConnectionLimit` in Limits.Connections, `DeadlineStream` in
--              Limits.Deadline
--   Database   src/database.rs: the options of `connect_pool`, and `with_named_lock`
--   PointsCache  src/points_cache.rs: `eligible_generation`, the statements on the state row and
--              on the tables of points; PointsCache.Steps has `worker_loop` and
--              `poll_and_rebuild` of all the instances as steps of one machine
--   Schema     src/schema.rs: `migrations` in Schema.Migrations, `prepare` for the owner in
--              Schema.Owner and for the other instances in Schema.Waiter
--   Server     src/main.rs: `main`
--   Snapshot   src/bin/frontend_metric_snapshot.rs: its statements in Snapshot.Metrics, the run in
--              Snapshot.Program
--   Ascii      the methods of `u8` and `str` that the source calls
--   Tests      concrete inputs, with a codec of the journal's lines
-- The sink holds an admission, a set of completed IDs and a journal, and calls the classification
-- for each write. A `Mutex` makes an operation one function of the state behind it. An
-- `Arc<Completion>` is an index into the completions of the sink.
--
-- A `String` is the list of its bytes, a `HashSet` the list of its elements without repetition, a
-- `HashMap` the list of its values, each key once. A `usize` is a natural number; its additions
-- and subtractions wrap or saturate at 2 ^ 64 as written in Prelude.Words.
--
-- Loops that are not structural run on fuel: `read_state` has one unit for each byte of the file
-- and one more, since each round but the last reads a byte; `head_tokens` and
-- `validate_single_statement` have one unit for each byte of the statement and one more, since
-- each round takes a byte off. `handle_client` runs on a list of rounds, one more than the bytes of
-- the connection, since a frame takes its line feed off; the wait for the schema has one unit for
-- each millisecond up to its deadline and two more, since a round sleeps for a second.
--
-- Parameters: `serde_json` (`Codec`, and the writers of Protocol.Encode), the opening of the
-- journal for reading (`Opener`), the comparison of two `f64` values (`RateTest`), the collation
-- of the snapshot table (`Collation`), the environment, and what the operating system and the
-- database answer to each call (`AppendIo`, `CompactIo`, `PathIo`, `FileIo`, the answer to a
-- statement, the answers on the named lock, the number of queries that a session answers, the
-- clock, the number of the process, the events of a socket, the outcomes of the steps of `main`,
-- and for a session what it meets while it waits, `Meets`).
--
-- The database is modelled as far as the source relies on it: a statement is atomic, the state row
-- and the table of versions change as the statements say, a named lock has one holder, and a
-- closed session holds none. The generation of the state row does not overflow.
--
-- Not modelled: `build_insert_sql` of src/points_cache.rs, which is one fixed query but for its
-- time; `DeadLetters` of src/journal.rs, which writes diagnostics; the plugin under scripting/;
-- and within the modelled files the opening of other files than the journal, the text of messages,
-- the time that a thread sleeps and `spawn_workers`.
pub mod Prelude
pub mod Ascii
pub mod Config
pub mod Database
pub mod Sql
pub mod Admission
pub mod Reader
pub mod Schema
pub mod Server
pub mod Journal
pub mod Limits
pub mod PointsCache
pub mod Sink
pub mod Snapshot
pub mod Protocol
pub mod Tests
