-- ===== src/StateMachine.antt =====
-- The data of the state machine: es-storage/src/state_machine.rs, with the requests and responses of
-- es-storage/src/raft_type.rs. The keys of a shard are the families of Key, each a map of its own,
-- and a value stands for its encoding.
pub mod Batch
pub mod Append
pub mod Commands
pub mod Apply
pub mod Reference
pub mod Tracking
pub mod Writes
pub mod Refinement
pub mod Monotone
pub mod Consistency
pub mod Sessions
pub mod Once
pub mod Guarantees
pub mod Health
pub mod Reads
use eventfs.Prelude.{
  ℕ, Option, none, some, List, [], ◌∷◌, ◌++◌, Text, ◌==◌, nat_ord, list_ord, pair_ord, Bool, true,
  false, not, if◌then◌else◌,
}
use eventfs.Bytes.{Bytes}
use eventfs.BTreeMap.{BTreeMap, insert}
use eventfs.Identifier.{InvalidInput, AggregateTypeId, type_id_ord}
use eventfs.Hlc.{Hlc}
use eventfs.Group.{Uuid, AggregateGroupSettings, AggregateGroupPartition}
use eventfs.Group.Settings.{SettingsError}
use eventfs.Group.Commands.{AggregateGroupPartitionCommand, PartitionResponse}
use eventfs.Catalog.{AggregateCatalog, AggregateCatalogCommand, AggregateCatalogApply}
use eventfs.GroupCatalog.{
  AggregateGroupCatalog, AggregateGroupCatalogCommand, AggregateGroupCatalogApply,
}
use eventfs.Append.{NewAggregateEvent, ExpectedAggregateVersion}

pub record AggregateEvent : Type 0 where
  pub aggregate_type : AggregateTypeId
  pub partition_id : ℕ
  pub aggregate_id : Text
  pub aggregate_version : ℕ
  pub event_id : Uuid
  pub event_type : Text
  pub data_bytes : Bytes
  pub metadata : Bytes
  pub hlc : Hlc
  pub partition_position : ℕ

pub data ExpectedStateRevision : Type 0 where
  absent : ExpectedStateRevision
  exact : ℕ → ExpectedStateRevision

pub record AggregateState : Type 0 where
  pub revision : ℕ
  pub data_bytes : Bytes

pub record AggregateStateDocument : Type 0 where
  pub revision : ℕ
  pub data_bytes : Bytes
  pub modified_hlc : Hlc

pub record AggregateAppendResult : Type 0 where
  pub aggregate_version : ℕ
  pub partition_position : ℕ

pub record AggregateIdempotencyRecord : Type 0 where
  pub fingerprint : ℕ
  pub result : AggregateAppendResult

-- A partition of a type, an instance or a group in it, and the identity of a request.
abbrev pub PartitionKey : Type 0
PartitionKey = AggregateTypeId × ℕ

abbrev pub InstanceKey : Type 0
InstanceKey = AggregateTypeId × (ℕ × Text)

abbrev pub NumberKey : Type 0
NumberKey = AggregateTypeId × (ℕ × ℕ)

abbrev pub EventKey : Type 0
EventKey = InstanceKey × ℕ

-- What is stored of a shard. A version alone stands for `AggregateMeta`.
pub record Storage : Type 0 where
  pub events : BTreeMap EventKey AggregateEvent
  pub metas : BTreeMap InstanceKey ℕ
  pub partition_index : BTreeMap NumberKey (Text × ℕ)
  pub next_positions : BTreeMap PartitionKey ℕ
  pub states : BTreeMap InstanceKey AggregateState
  pub states_modified : BTreeMap InstanceKey Hlc
  pub idempotency : BTreeMap NumberKey AggregateIdempotencyRecord
  pub partition_fences : BTreeMap PartitionKey ℕ
  pub catalog : Option AggregateCatalog
  pub group_catalog : Option AggregateGroupCatalog
  pub group_partitions : BTreeMap InstanceKey AggregateGroupPartition

-- `ApplyOp::Put`, by the family of its key.
pub data ApplyOp : Type 0 where
  put_event : EventKey → AggregateEvent → ApplyOp
  put_meta : InstanceKey → ℕ → ApplyOp
  put_partition_index : NumberKey → Text × ℕ → ApplyOp
  put_next_position : PartitionKey → ℕ → ApplyOp
  put_state : InstanceKey → AggregateState → ApplyOp
  put_state_modified : InstanceKey → Hlc → ApplyOp
  put_idempotency : NumberKey → AggregateIdempotencyRecord → ApplyOp
  put_partition_fence : PartitionKey → ℕ → ApplyOp
  put_catalog : AggregateCatalog → ApplyOp
  put_group_catalog : AggregateGroupCatalog → ApplyOp
  put_group_partition : InstanceKey → AggregateGroupPartition → ApplyOp

unfoldable pub write : ApplyOp → Storage → Storage
write (put_event k v) s = record s { events = insert k v s.events }
write (put_meta k v) s = record s { metas = insert k v s.metas }
write (put_partition_index k v) s = record s { partition_index = insert k v s.partition_index }
write (put_next_position k v) s = record s { next_positions = insert k v s.next_positions }
write (put_state k v) s = record s { states = insert k v s.states }
write (put_state_modified k v) s = record s { states_modified = insert k v s.states_modified }
write (put_idempotency k v) s = record s { idempotency = insert k v s.idempotency }
write (put_partition_fence k v) s = record s { partition_fences = insert k v s.partition_fences }
write (put_catalog v) s = record s { catalog = some v }
write (put_group_catalog v) s = record s { group_catalog = some v }
write (put_group_partition k v) s = record s { group_partitions = insert k v s.group_partitions }

-- The writes of a transaction, in order.
unfoldable pub write_all : List ApplyOp → Storage → Storage
write_all [] s = s
write_all (op ∷ ops) s = write_all ops (write op s)

pub record AppendRequest : Type 0 where
  pub aggregate_type : AggregateTypeId
  pub partition_id : ℕ
  pub partition_generation : ℕ
  pub aggregate_id : Text
  pub expected_version : ExpectedAggregateVersion
  pub event : NewAggregateEvent
  pub hlc : Hlc

pub record PutStateRequest : Type 0 where
  pub aggregate_type : AggregateTypeId
  pub partition_id : ℕ
  pub partition_generation : ℕ
  pub aggregate_id : Text
  pub expected_revision : ExpectedStateRevision
  pub data_bytes : Bytes
  pub hlc : Hlc

pub record GroupPartitionRequest : Type 0 where
  pub aggregate_type : AggregateTypeId
  pub partition_id : ℕ
  pub partition_generation : ℕ
  pub group_name : Text
  pub group_epoch : ℕ
  pub start_position : ℕ
  pub settings : AggregateGroupSettings
  pub command : AggregateGroupPartitionCommand

pub data EsRequest : Type 0 where
  aggregate_append : AppendRequest → EsRequest
  put_aggregate_state : PutStateRequest → EsRequest
  install_partition_fence : AggregateTypeId → ℕ → ℕ → EsRequest
  commit_catalog : AggregateCatalogCommand → EsRequest
  commit_group_catalog : AggregateGroupCatalogCommand → EsRequest
  group_partition : GroupPartitionRequest → EsRequest

-- The reasons of `AggregateInvalid`.
pub data EsReason : Type 0 where
  invalid_identifier : InvalidInput → EsReason
  invalid_settings : SettingsError → EsReason
  empty_event_type version_exhausted position_exhausted revision_exhausted zero_generation :
      EsReason

pub data EsResponse : Type 0 where
  noop idempotency_conflict aggregate_not_found : EsResponse
  append_ok : ℕ → ℕ → EsResponse
  optimistic_conflict state_conflict : Option ℕ → EsResponse
  state_stored : AggregateStateDocument → EsResponse
  fence_installed partition_fenced : ℕ → EsResponse
  catalog_applied : AggregateCatalogApply → EsResponse
  group_catalog_applied : AggregateGroupCatalogApply → EsResponse
  group_partition_ran : PartitionResponse → EsResponse
  aggregate_invalid : EsReason → EsResponse

pub record ApplyBatch : Type 0 where
  pub ops : List ApplyOp
  pub aggregate_versions : BTreeMap InstanceKey (Option ℕ)
  pub aggregate_partition_positions : BTreeMap PartitionKey ℕ
  pub aggregate_states : BTreeMap InstanceKey (Option AggregateState)
  pub aggregate_idempotency : BTreeMap NumberKey AggregateIdempotencyRecord
  pub aggregate_partition_fences : BTreeMap PartitionKey ℕ
  pub aggregate_catalog : Option AggregateCatalog
  pub aggregate_group_catalog : Option AggregateGroupCatalog
  pub aggregate_group_partitions : BTreeMap InstanceKey AggregateGroupPartition
  pub new_aggregate_events : List AggregateEvent

abbrev pub empty_batch : ApplyBatch
empty_batch = record {
  ops = [];
  aggregate_versions = [];
  aggregate_partition_positions = [];
  aggregate_states = [];
  aggregate_idempotency = [];
  aggregate_partition_fences = [];
  aggregate_catalog = none;
  aggregate_group_catalog = none;
  aggregate_group_partitions = [];
  new_aggregate_events = [];
}
