-- ===== src/Lib.antt =====
-- A model of the crates of altair-rs, with the theorems that make them correct.
--
-- Parts. Each crate has its own tree of modules; paths are from the root of the repository.
-- - Prelude: tests into Bool, lists, native text, orders, association lists, and Prelude.Async,
--   the results and the steps on an outside state that the crates share.
-- - Wf (crates/altair-wf/src): the workflow patterns. Wf.Error is error.rs, Wf.Task the traits of
--   traits.rs, Wf.Types the records and the validation of types.rs, Wf.Params the combinations of
--   helpers.rs, Wf.Template its templates of a text, Wf.Defaults its default options, Wf.Patterns
--   the functions of patterns.rs (execute, pipeline, parallel, run_loop, parameterized_loop).
--   Wf.Chunk is datasync/chunk: partition.rs and sync.rs, iterate.rs in Wf.Chunk.Iterate, with
--   Wf.Chunk.Resume for the contract of tracker.rs. Wf.Datasync is source.rs, mapper.rs, sink.rs,
--   result.rs and runner.rs of datasync, and Wf.Datasync.Job its job.rs. Wf.Function is payload.rs
--   and registry.rs of function, Wf.Function.Payload the output and the setters of payload.rs,
--   Wf.Function.Activity its activity.rs. Wf.Dag is dag.rs: the layers, Wf.Dag.Search the
--   validation with its search for cycles; Wf.Dag.Run is run_dag of patterns.rs.
-- - Base32 (crates/altair-base32/src): Base32.Error is error.rs, Base32.Bytes bytes.rs, Base32.U64
--   u64.rs, Base32.Check check.rs.
-- - Retry (crates/altair-retry/src): Retry.Error is error.rs, Retry.Config config.rs, Retry.Loop
--   retry.rs.
-- - Concurrent (crates/altair-concurrent/src): Concurrent.TaskMap is task_map.rs,
--   Concurrent.Executor executor.rs with error.rs; Concurrent.Runtime is what they take from
--   tokio.
-- - Compress (crates/altair-compress/src): Compress.SafePath is safe_path.rs with error.rs,
--   Compress.Extract the functions of tar.rs, tarball.rs, zip.rs and gzip.rs that unpack;
--   Compress.Files is what they take from the file system and the archive crates.
-- - Temporal (crates/altair-temporal/src): Temporal.Error is error.rs, Temporal.Retry retry.rs,
--   Temporal.WorkflowId workflow_id.rs, over Base32.Bytes, Temporal.Schedule schedule/mod.rs,
--   Temporal.Schedule.Typed schedule/typed.rs, Temporal.Config config.rs, Temporal.Client
--   client.rs, Temporal.Worker worker.rs, Temporal.Activity activity.rs. Temporal.Schedule.Server
--   is the contract of the server of schedules, which may refuse options.
-- - Server (crates/altair-server/src): Server.Error is error.rs, Server.Builder builder.rs,
--   middleware.rs, health.rs and server.rs.
-- - Otel (crates/altair-otel/src): Otel.Config is config.rs with error.rs, Otel.Init init.rs with
--   globals.rs.
-- - ConfigLoader (crates/altair-config/src): loader.rs, loaders.rs and error.rs.
-- - Rest (crates/altair-rest/src): Rest.Http is error.rs and what the crate takes from reqwest,
--   Rest.Client config.rs, client.rs and json.rs.
-- - Db (crates/altair-db/src): Db.Config is config.rs with error.rs, Db.Handle connect.rs and
--   db.rs.
--
-- How code becomes definitions. An activity is a function from the outside state to a result and
-- the next outside state, so each model says in which order activities run and which ones do not.
-- Wf.Futures is the interface to the crate futures: join_all and buffer_unordered may complete
-- futures in any order, and the model assumes only what their documentation states, that each
-- future runs once and that its answer is reported with it. Concurrent.Runtime in the same way
-- lets any task of a JoinSet be the next to complete. HashMaps are association lists; the order of
-- the entries is that of an iteration, which the map does not promise. Errors carry the same texts
-- as the code. The crate base32 is the parameter Codec, with its round trip and its alphabet as
-- laws. A u64 is a natural number below 2^64: checked steps test the bound, and a shift by five
-- bits is a division by 32. The byte counts of an extraction are u64 that saturate. The attempts
-- of a retry are a u32 that wraps. A usize that counts elements of a list in memory is a natural
-- number; the totals of a chunked sync, which add up what partitions report, wrap as in a release
-- build. Durations are nanoseconds; the sum that is the drain deadline of a worker panics above
-- the largest duration.
--
-- Bounds. The loops of the patterns are structural on the list of tasks and need no fuel, nor do
-- the loops of base32, which run over 13 slots or over the characters of a text. The while loop of
-- topological_layers has as many rounds as there are nodes, since each round marks a node. The
-- search for cycles has a round for each node and for each dependency, and one more, since each
-- round advances a cursor or pops a frame. A retry is structural on the delays that the backoff
-- gives. The loops over a JoinSet have one round more than there are tasks, since each round but
-- the last joins one.
--
-- Not modelled: tracing spans and log lines, the signal handlers of altair-temporal and altair-
-- server, the heartbeat of an executed function, the functions of altair-compress that make
-- archives, the conversions to the errors of the Temporal SDK, the transactions of altair-db and
-- the execution of a prepared request in altair-rest, which are calls of sea-orm and reqwest, the
-- filter of log levels and the accessor of meters in altair-otel, and the containers for
-- integration tests.
pub mod Prelude
pub mod Wf
pub mod Retry
pub mod Temporal
pub mod Server
pub mod Otel
pub mod ConfigLoader
pub mod Rest
pub mod Db
pub mod Concurrent
pub mod Compress
pub mod Base32
