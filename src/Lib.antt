-- ===== src/Lib.antt =====
-- BlitzDB, an embeddable database in Rust: its values and schemas, the in-memory table engine, the
-- optimistic transactions over the engine, the write-ahead log, the wire protocol and the queries,
-- and beside them the indexes, the replication log, the access policy, the background jobs and the
-- membership of a cluster.
--
-- How the parts meet. A table schema (crates/blitz-types) says which columns are unique and checks
-- the values of a row. The engine (crates/blitz-core) keeps, for each table, its rows and an index
-- for each unique column. A transaction (crates/blitz-tx) buffers writes and records the versions
-- of what it reads; the manager validates both at commit and applies the writes to the engine. The
-- log (crates/blitz-wal) keeps the writes as bytes in a file and reads them back after a crash. The
-- codec of the wire protocol (crates/blitz-protocol) turns requests and responses into frames of
-- bytes and takes frames out of a buffer as they arrive. A query (crates/blitz-query) filters, sorts,
-- pages and aggregates the rows of a table. The indexes, the replicator, the policy, the scheduler of
-- jobs and the cluster membership stand by themselves. The server (crates/blitz-server) runs requests
-- on the engine and logs the writes, each table in the log of one shard; when it starts, recovery
-- puts the snapshot and then the logs into an empty engine.
--
-- Which file models what:
--   Prelude         shared names; lists measured by native numbers, results, maps, orders, bytes
--   Types/Value     crates/blitz-types/src/value.rs: Value, Ord::cmp, Hash, ==, the accessors;
--                   Types/Value/Transitive takes Ord::cmp by its parts
--   Types/Interface crates/blitz-types/src/column.rs, and what the engine asks of a value
--   Types/Schema    crates/blitz-types/src/schema.rs: TableSchema and its validation of rows
--   Types/Row       crates/blitz-types/src/row.rs
--   Core/Table      crates/blitz-core/src/table.rs: InMemoryTable and the body of each method
--   Core/Engine     the same file: InMemoryTableEngine, which finds a table and runs a body on it
--   Tx/Transaction  crates/blitz-tx/src/transaction.rs; `buffer` is insert, update and delete
--   Tx/Manager      crates/blitz-tx/src/manager.rs: begin, get, commit and the version map
--   Wal/Reader      std::io::Read over the bytes of a file
--   Wal/Codec       crates/blitz-wal/src/log.rs: WalHeader and WalEntryRaw, to bytes and back
--   Wal/Log         the same file: WriteAheadLog, as its file, its staged bytes and its counters
--   Replication     crates/blitz-replication/src/replicator.rs: the operation log and its peers
--   Policy          crates/blitz-policy/src/policy.rs, and crates/blitz-auth/src/identity.rs
--   Jobs            crates/blitz-jobs/src/job.rs: jobs, their retries, and the scheduler
--   Protocol/Message crates/blitz-protocol/src/message.rs; Protocol/Wire: what other crates give
--   Protocol/Writer, Protocol/Decoder, Protocol/Codec
--                   crates/blitz-protocol/src/codec.rs: Writer, Reader and FrameCodec
--   Query/Planner   crates/blitz-query/src/planner.rs
--   Query/Match, Query/Like, Query/Sort, Query/Aggregate, Query/Executor
--                   crates/blitz-query/src/executor.rs: the filters, LIKE, slice::sort_by, the
--                   aggregation, and execute
--   Index           crates/blitz-index/src/hash_index.rs
--   Core/HashIndex, Core/Pool
--                   crates/blitz-core/src/index.rs and crates/blitz-core/src/pool.rs
--   Cluster         crates/blitz-cluster/src/membership.rs
--   Storage         crates/blitz-storage/src/recovery.rs: the replay of a log of transactions
--   Server/Ids, Server/Routing, Server/Access, Server/Changes, Server/Limits
--                   crates/blitz-server/src/server.rs: ids and shards of rows, who may
--                   do what, the log of changes, and the admission of connections
--   Server/Window   crates/blitz-server/src/transport.rs: the window of a scan
--   Durability/Payload, Durability/Replay, Durability/Cluster
--                   crates/blitz-server/src/durability.rs: the payloads of the log, `recover` and
--                   `save_snapshot`, and the shard of a table; Durability/Replay/Tables takes replay
--                   table by table, Durability/Replay/History is what a running server logs
--   Tests           concrete runs, and the theorems applied at concrete inputs
--
-- State. A method that changes an object takes it and returns it beside its outcome, so that what a
-- failing call changes can be stated. A hash map is a list of entries with the source's test of a
-- key: equal hash input and `==`, which need not hold of a key and itself (a floating NaN). Errors
-- are values; their texts are left out. A `u64` counter is a number with its wrap at 2^64.
--
-- Parameters. The engine is written for any type of values with `is_null`, `==`, a probe and a type
-- check (`ValueOps`), which `Value` fills. The types of the crates uuid, chrono and serde_json are
-- the parameter `Foreign`, and their bytes on the wire the parameter `Wire`; crc32fast and the UTF-8
-- test are the parameter `Bytes32`. A query takes `str::to_lowercase` and the arithmetic of floats
-- (`Floats`) as parameters. Durability takes serde_json as the parameter `Serde`, and the hash of a
-- table's name; Storage takes the reading of a payload by bincode; sessions take the clock of chrono
-- (`Clock`).
--
-- Fuel. The loop over the entries of a log takes one more unit than there are bytes left. An entry
-- takes 33 bytes at least, so that this never runs out. The reader of a value on the wire, which
-- calls itself for the items of an array, takes one unit for each byte left: every call reads a tag
-- first, and with no byte left the source reports a truncated payload, as the model does. The search
-- for a cursor takes one unit for each row of the scan, and each round narrows its range.
--
-- Not modelled: locks and their poisoning (a call is one step), the stripes that serialise commits,
-- I/O errors other than the end of the file, the parsing of schemas from JSON, the ordered index,
-- the stack that nested values take on the wire,
-- the channels and threads of the group commit, the files of the snapshots, the connections of the
-- server and the dispatch of its requests, the restoration of a snapshot by the storage crate, and
-- the event, search, runtime and memory crates.
pub mod Prelude
pub mod Types
pub mod Core
pub mod Tx
pub mod Wal
pub mod Replication
pub mod Policy
pub mod Jobs
pub mod Protocol
pub mod Query
pub mod Index
pub mod Cluster
pub mod Storage
pub mod Server
pub mod Durability
pub mod Tests
