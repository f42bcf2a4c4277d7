-- ===== src/Group.antt =====
-- es-core/src/aggregate_group.rs: the data of a consumer group and of its progress in a partition.
pub mod Settings
pub mod Progress
pub mod Settlement
pub mod Claim
pub mod Checkpoint
pub mod Invariant
pub mod Commands
pub mod Monotone
use eventfs.Prelude.{ℕ, Bool, Text, nat_ord, list_ord, List, []}
use eventfs.BTreeMap.{BTreeMap, BTreeSet}

pub record AggregateGroupSettings : Type 0 where
  pub max_unacked_per_consumer : ℕ
  pub max_unacked_per_group : ℕ
  pub ack_timeout_ms : ℕ
  pub max_retries : ℕ
  pub retry_min_ms : ℕ
  pub retry_max_ms : ℕ

-- A `Uuid` is its 128-bit number, whose order is that of its bytes.
abbrev pub Uuid : Type 0
Uuid = ℕ

pub record AggregateDeliveryCandidate : Type 0 where
  pub delivery_id : Uuid
  pub partition_position : ℕ
  pub aggregate_id : Text
  pub aggregate_version : ℕ
  pub event_id : Uuid
  pub payload_bytes : ℕ
  pub replayed : Bool

pub record AggregateGroupDelivery : Type 0 where
  pub delivery_id : Uuid
  pub consumer_id : Text
  pub partition_position : ℕ
  pub aggregate_id : Text
  pub aggregate_version : ℕ
  pub event_id : Uuid
  pub attempt : ℕ
  pub deadline_ms : ℕ
  pub group_epoch : ℕ
  pub replayed : Bool

pub record AggregateGroupRetry : Type 0 where
  pub partition_position : ℕ
  pub aggregate_id : Text
  pub aggregate_version : ℕ
  pub event_id : Uuid
  pub attempt : ℕ
  pub not_before_ms : ℕ
  pub replayed : Bool

pub record AggregateGroupParked : Type 0 where
  pub partition_position : ℕ
  pub aggregate_id : Text
  pub aggregate_version : ℕ
  pub event_id : Uuid
  pub attempts : ℕ
  pub reason : Text
  pub parked_at_ms : ℕ

pub record AggregateInstanceLease : Type 0 where
  pub consumer_id : Text
  pub group_epoch : ℕ
  pub deadline_ms : ℕ

pub record AggregateGroupPartition : Type 0 where
  pub epoch : ℕ
  pub next_position : ℕ
  pub resolved_gaps : BTreeSet ℕ
  pub leases : BTreeMap Text AggregateInstanceLease
  pub deliveries : BTreeMap Uuid AggregateGroupDelivery
  pub pending_retries : BTreeMap ℕ AggregateGroupRetry
  pub parked : BTreeMap Uuid AggregateGroupParked

pub data AggregateSettlementAction : Type 0 where
  ack retry park skip : AggregateSettlementAction

pub record AggregateSettlement : Type 0 where
  pub delivery_id : Uuid
  pub action : AggregateSettlementAction
  pub reason : Text

pub data AggregateSettlementResult : Type 0 where
  applied already_settled stale_lease wrong_consumer : AggregateSettlementResult
