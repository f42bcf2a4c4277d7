-- ===== src/Group/Invariant.antt =====
-- What holds of a partition's progress between commands: an instance has at most one delivery or
-- pending retry, and a delivery is leased to the consumer that it was handed to.
pub mod Steps
pub mod Commands
pub mod Claims
use eventfs.Prelude.{ℕ, ◌≡◌, ◌≢◌, none, some, nat_ord, list_ord}
use eventfs.BTreeMap.{get}
use eventfs.Group.{
  AggregateGroupDelivery, AggregateGroupRetry, AggregateInstanceLease, AggregateGroupPartition,
}
use eventfs.Group.Checkpoint.{IsCheckpoint, IsOpen}

abbrev pub lease_of : AggregateGroupDelivery → AggregateInstanceLease
lease_of d = record {
  consumer_id = d.consumer_id;
  group_epoch = d.group_epoch;
  deadline_ms = d.deadline_ms;
}

-- The facts about one delivery.
pub record IsHeld (p : AggregateGroupPartition) (i : ℕ) (d : AggregateGroupDelivery) : Type 0 where
  pub keyed : d.delivery_id ≡ i
  pub current : d.group_epoch ≡ p.epoch
  pub unsettled : IsOpen p d.partition_position
  pub unscheduled : get d.partition_position p.pending_retries ≡ none
  pub leased : get d.aggregate_id p.leases ≡ some (lease_of d)

-- The facts about one pending retry.
pub record IsScheduled (p : AggregateGroupPartition) (q : ℕ) (r : AggregateGroupRetry)
    : Type 0 where
  pub keyed : r.partition_position ≡ q
  pub unsettled : IsOpen p q

pub record IsValid (p : AggregateGroupPartition) : Type 0 where
  pub checkpoint : IsCheckpoint p
  pub held : (i : ℕ) (d : AggregateGroupDelivery) → get i p.deliveries ≡ some d → IsHeld p i d
  pub scheduled :
      (q : ℕ) (r : AggregateGroupRetry) → get q p.pending_retries ≡ some r → IsScheduled p q r
  pub one_delivery :
      (i j : ℕ) (d e : AggregateGroupDelivery)
      → get i p.deliveries ≡ some d
      → get j p.deliveries ≡ some e
      → d.aggregate_id ≡ e.aggregate_id
      → i ≡ j
  pub one_position :
      (i j : ℕ) (d e : AggregateGroupDelivery)
      → get i p.deliveries ≡ some d
      → get j p.deliveries ≡ some e
      → d.partition_position ≡ e.partition_position
      → i ≡ j
  pub one_retry :
      (q t : ℕ) (r s : AggregateGroupRetry)
      → get q p.pending_retries ≡ some r
      → get t p.pending_retries ≡ some s
      → r.aggregate_id ≡ s.aggregate_id
      → q ≡ t
  pub exclusive :
      (i q : ℕ) (d : AggregateGroupDelivery) (r : AggregateGroupRetry)
      → get i p.deliveries ≡ some d
      → get q p.pending_retries ≡ some r
      → d.aggregate_id ≢ r.aggregate_id

-- No delivery and no retry stands for the position.
pub record IsFree (p : AggregateGroupPartition) (position : ℕ) : Type 0 where
  pub undelivered :
      (i : ℕ) (e : AggregateGroupDelivery)
      → get i p.deliveries ≡ some e
      → e.partition_position ≢ position
  pub unscheduled : get position p.pending_retries ≡ none

-- A delivery that has just been taken out: nothing else stands for its instance or position.
pub record IsLoose (p : AggregateGroupPartition) (d : AggregateGroupDelivery) : Type 0 where
  pub free : IsFree p d.partition_position
  pub open free use *
  pub alone :
      (i : ℕ) (e : AggregateGroupDelivery)
      → get i p.deliveries ≡ some e
      → e.aggregate_id ≢ d.aggregate_id
  pub no_retry :
      (q : ℕ) (r : AggregateGroupRetry)
      → get q p.pending_retries ≡ some r
      → r.aggregate_id ≢ d.aggregate_id
  pub unsettled : IsOpen p d.partition_position
