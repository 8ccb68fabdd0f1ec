-- ===== src/Lib.antt =====
-- The archive of a Substrate chain: a node that executes every block again, and writes the blocks and
-- their storage changes to a database and a message queue.
--
-- A number travels round a loop. `archive/notifier/src/initializer.rs` (or the configuration) gives the
-- first one to the executor (`archive/executor`), which reads the block from the backend
-- (`archive/traits`), executes it, asks the version cache for the runtime's version, sends the result
-- to the archiver and the number to the comparer. The archiver (`archive/notifier/src/notifier.rs`)
-- stores the block (`archive/postgres`) and publishes it (`archive/kafka`). The comparer
-- (`archive/notifier/src/comparer.rs`) sends the next number back to the executor, or the same one
-- after a wait. `cli/src/service.rs` starts the tasks. The backend is filled by the client
-- (`client/service/src/client/client.rs`), which checks, executes and imports blocks and finalizes
-- them, and tells its listeners.
--
-- Files, each with its children:
--   Prelude     shared names, tests, maps as association lists, integers, results and panics
--   Chain       headers, blocks and errors, as in `primitives/src/lib.rs`
--   Postgres    Model: `model.rs`; Tables: the migration; Statements: the SQL of `insert.rs`, `query.rs`
--               and `update.rs`; Database: `PostgresDb` of `mod.rs`; the rest are proofs
--   Kafka       Payload: `payload.rs` and `config.rs`; Key and Producer: `producer.rs`; Delivery: proofs
--   Traits      LocalDb: `local_db.rs`; RocksDb and Open: `readonly/`; Budget and CatchUp: proofs
--   Executor    VersionCache and HostFunctions: `version_cache.rs`; Block and Archive: `lib.rs`; the
--               rest are proofs
--   Notifier    Task: the archiver's state; Archive: `archive` and `run`; the rest are proofs
--   Client      Backend: what the client is given; Rules: `block_rules.rs`; Notifies: `notifies.rs`; Status,
--               Check, Prepare, Operation, Finality, Import, Lock, Uncles, Streams, Api, Blocks, Storage,
--               ChangesTrie, Proofs and Provide: `client.rs`; Genesis: `Client::new` and `genesis.rs`;
--               Overrides: `wasm_override.rs`; CallExecutor: `call_executor.rs`; all of them under
--               `client/service/src`; the rest are proofs
--   Mock        Call, Apis, Dispatch and State: the runtime api of `archive/runtime/src/mock.rs`; Object and
--               Knot: what its callers and the client have of it; the rest are proofs
--   Pipeline    Comparer, Initializer: the files of these names; System and Turns: the tasks and
--               their runs; the rest are proofs
--   Service     Config: `archive/src/config.rs`; Command and LoadSpec: `cli/src/command.rs`; Start:
--               `cli/src/service.rs`; Parts and Build: `builder.rs`, and Network: `lib.rs`, of
--               `client/service/src`; ChainSpec: `cli/src/chain_spec.rs`; the rest are proofs
--   Runtime     Constants: `runtime/src/constants.rs`; Weights and Apis: `runtime/src/lib.rs`
--   Tests       witnesses and runs
--
-- State and failures. A task is a function from its state to an outcome and the state after it; what
-- was done before an error or a panic stays done. The tables are association lists under their primary
-- keys. `PostgresDb` carries a schedule of the waits that fail, `KafkaProducer` one of the deliveries
-- that fail, so a statement about all of them covers every pattern of failures. The loop of a task over
-- a channel is a function of what the channel will bring before it closes; in `Pipeline.System` the
-- tasks are interleaved in any order, the backend's best number may rise and fall, and what the backends
-- and the runtime answer may differ at every turn; a task that panics drops the channel that it reads.
--
-- The client's import is a function from the calls made so far on the backend's operation, with what is
-- to be told, to an outcome and the same after it. The backend answers each call as it likes, given
-- the calls before it, so the statements cover its failures.
--
-- The walk through the configurations of the changes tries is on fuel; more fuel than the last block is
-- deep is enough, where each configuration is older than the blocks that have it. The loops of the
-- tasks and of the network are structural on what they receive.
--
-- Numbers. A hash is a number, and bytes are lists of numbers. An `integer` column is an `i32`,
-- modelled by ℤ; how the driver encodes a `u32` is a field of `PostgresDb`. `Kafka.Key` allows ten
-- digits, which is what a `u32` has at most.
--
-- Not of this repository, and so parameters: the state machines and the overlay of their changes, the
-- pallets and the executive, SCALE and JSON encodings, hashes, the decoding of runtime versions,
-- RocksDB, the outcome of connecting to Kafka, the network, the consensus and the telemetry that the
-- service starts.
--
-- Not modelled: logging and timings; the connection to Postgres; of `runtime/src/lib.rs`, how the
-- pallets are put together, which is macros and associated types; the macro of `executor/src`; the
-- examples; of the client, the getters that only pass a call on.
mod Prelude
pub mod Chain
pub mod Postgres
pub mod Kafka
pub mod Notifier
pub mod Traits
pub mod Executor
pub mod Pipeline
pub mod Client
pub mod Service
pub mod Mock
pub mod Runtime
mod Tests
