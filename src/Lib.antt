-- ===== src/Lib.antt =====
-- eventfs: an event store whose write path is a replicated state machine.
--
-- A command reaches a Raft shard, which applies it to ordered keys of a storage engine. The types of
-- aggregates and the placement of their 256 event partitions are kept in a catalog; consumer groups are
-- kept in a second catalog, and each group has a progress record for each partition, from which consumers
-- claim events, settle them, renew their leases and let them expire.
--
-- Prelude, BTreeMap, Bytes: shared notation, ordered types, machine words, `BTreeMap` as an association
-- list with one entry for each key at most that is found, and big-endian numbers.
-- Identifier (eventstore/es-core/src/aggregate.rs): `validate_aggregate_identifier` and `AggregateTypeId`.
-- Hlc (eventstore/es-core/src/hlc.rs): `Hlc::next`; the reading of the system clock is an argument.
-- Catalog (eventstore/es-core/src/aggregate.rs): the data of `AggregateCatalog` and the partition hash;
-- Catalog.Apply: `AggregateCatalog::apply` with one function for each command.
-- Group (eventstore/es-core/src/aggregate_group.rs): the data of `AggregateGroupPartition`;
-- Group.Settings, Group.Progress, Group.Settlement and Group.Claim: its operations;
-- Group.Commands: the dispatch of the partition commands (eventstore/es-storage/src/raft_type.rs and
-- state_machine.rs) and the states that they reach.
-- GroupCatalog (eventstore/es-core/src/aggregate_group.rs): `AggregateGroupCatalog::apply`.
-- Key (eventstore/es-storage/src/key.rs): the byte keys, their successors, the scan bounds and two decoders.
-- StateMachine (eventstore/es-storage/src/state_machine.rs, raft_type.rs): the stored tables, requests,
-- responses and `ApplyBatch`; StateMachine.Batch: the reads through the batch; StateMachine.Append,
-- StateMachine.Commands: one function for each request; StateMachine.Apply: `apply`, a list of log entries
-- in one transaction. StateMachine.Reference is the specification: one request at a time on the tables.
-- StateMachine.Refinement compares the two; StateMachine.Consistency, StateMachine.Once,
-- StateMachine.Guarantees and StateMachine.Health are about what `apply` stores and answers.
-- StateMachine.Reads: the reading of the events of a partition and of a document.
-- Redirect (eventstore/es-core/src/redirect.rs): `LeaderRetryPlan`.
-- Append (eventstore/es-core/src/aggregate.rs): the request to append an event and its fingerprint.
-- Snapshot (eventstore/es-storage/src/snapshot.rs): the format of snapshot files; Snapshot.Install
-- (state_machine.rs and storage.rs beside it): building and installing a snapshot on the byte keys of an
-- engine; Snapshot.Store: `SnapshotStore::latest` and `retain` on the entries of a directory. The JSON of
-- the meta data, the compression and the encoding of the applied state are parameters.
-- Merger (eventstore/es-server/src/aggregate_service.rs): `AggregateReadMerger`.
-- RaftLog (eventstore/es-storage/src/log_storage.rs and storage.rs): the Raft log of a shard on the byte
-- keys of the engine, of which Snapshot.Install has the operations; RaftLog.Refinement has the abstract log.
-- Placement (eventstore/es-server/src/config.rs): the configuration of a node and its checks on the
-- placement of the shards; Placement.Validate: `Config::validate`, with `normalize_endpoint`
-- (eventstore/es-proto/src/endpoint.rs); Placement.Shards: `local_shards`, `shard_members`, `shard_count`.
-- Fuse.Paths (eventfs-fuse/src/path.rs): `Node` and its parsing, and `parent_node` (fuse.rs beside it).
-- Fuse.Handles (eventfs-fuse/src/handle.rs): `BufferedWrite` and `StreamBuffer`; in Fuse.Handles.Commits and
-- Fuse.Handles.Streams they are run on a list of calls.
-- Fuse.Inodes (eventfs-fuse/src/fuse.rs): `InodeTable`.
-- Fuse.Codec (eventfs-fuse/src/codec.rs): the reading of events, settlements and tokens; serde_json is a
-- parameter.
-- Tests: concrete inputs.
--
-- Numbers are natural numbers; where a `u64` or `u32` sum saturates, wraps or is checked, the operation
-- says so. A text is the list of its UTF-8 bytes, and a `Uuid` is its 128-bit number. An operation on
-- `&mut self` returns the new value. The only fuel is in `advance`, the loop that moves a checkpoint over
-- the gaps: each round removes a gap, so the number of gaps is enough.
-- The tables of a shard are one map for each family of keys, and a stored value stands for its bincode
-- encoding, so that a failure to encode, to decode or to reach the engine has no place in the model. The
-- log identities and memberships of openraft are type parameters.
-- The hash functions of the crate xxhash_rust are the parameter `Xxh3`.
--
-- Not modelled: the storage engine, Raft and networking are input and output, and so are the callbacks of
-- the file system front end; the listing of the states of a partition, the reading of a snapshot directory, the
-- request handling of the server and the parsing of leader hints are not modelled.
pub mod Prelude
pub mod BTreeMap
pub mod Identifier
pub mod Hlc
pub mod Bytes
pub mod Key
pub mod Group
pub mod Catalog
pub mod GroupCatalog
pub mod Redirect
pub mod Append
pub mod StateMachine
pub mod Snapshot
pub mod Merger
pub mod RaftLog
pub mod Placement
pub mod Fuse
pub mod Tests
