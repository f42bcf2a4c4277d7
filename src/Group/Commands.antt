-- ===== src/Group/Commands.antt =====
-- The commands of a group partition (es-storage/src/raft_type.rs), as the state machine runs them
-- on the stored progress (es-storage/src/state_machine.rs), and the states that they reach.
use eventfs.Prelude.{
  ℕ, ◌≤◌, ◌≡◌, ◌≢◌, Text, List, some, ltb, Bool-cases, inl, inr, if◌then◌else◌, nat_ord, list_ord,
  arith,
}
use eventfs.Prelude.Words.{u64_max}
use eventfs.BTreeMap.{get}
use eventfs.Group.{
  AggregateGroupSettings, Uuid, AggregateDeliveryCandidate, AggregateGroupDelivery,
  AggregateGroupRetry, AggregateGroupPartition, AggregateSettlement, AggregateSettlementResult,
}
use eventfs.Group.Progress.{new, reset}
use eventfs.Group.Claim
use eventfs.Group.Claim.{ClaimRequest}
use eventfs.Group.Settlement
use eventfs.Group.Invariant.{IsValid, lease_of}
use eventfs.Group.Invariant.Steps.{new-IsValid}
use eventfs.Group.Invariant.Commands.{expire-IsValid, settle-IsValid, renew-IsValid}
use eventfs.Group.Invariant.Claims.{claim-IsValid}

pub data AggregateGroupPartitionCommand : Type 0 where
  -- the request, `max_claim` and the candidates
  claim : ClaimRequest → ℕ → List AggregateDeliveryCandidate → AggregateGroupPartitionCommand
  settle : Text → ℕ → List AggregateSettlement → AggregateGroupPartitionCommand
  renew : Text → ℕ → List Uuid → AggregateGroupPartitionCommand
  expire : ℕ → AggregateGroupPartitionCommand

pub data PartitionResponse : Type 0 where
  claimed : List AggregateGroupDelivery → PartitionResponse
  settled renewed : List AggregateSettlementResult → PartitionResponse
  expired : ℕ → PartitionResponse
  stale_epoch : ℕ → PartitionResponse

unfoldable pub run_command :
    AggregateGroupSettings
    → ℕ
    → AggregateGroupPartitionCommand
    → AggregateGroupPartition
    → AggregateGroupPartition × PartitionResponse
run_command settings epoch (claim q max_claim candidates) p =
    let (p', ds) = Claim.claim q settings max_claim candidates p in (p', claimed ds)
run_command settings epoch (settle consumer_id now_ms settlements) p =
    let (p', rs) = Settlement.settle consumer_id epoch now_ms settings settlements p in
    (p', settled rs)
run_command settings epoch (renew consumer_id deadline_ms ids) p =
    let (p', rs) = Settlement.renew consumer_id epoch deadline_ms ids p in (p', renewed rs)
run_command settings epoch (expire now_ms) p =
    let (p', n) = Settlement.expire now_ms settings p in (p', expired n)

-- A newer epoch of the group starts the partition anew; an older one is refused.
unfoldable pub run_partition :
    AggregateGroupSettings
    → ℕ
    → ℕ
    → AggregateGroupPartitionCommand
    → AggregateGroupPartition
    → AggregateGroupPartition × PartitionResponse
unfolding run_command
run_partition settings group_epoch start_position command p =
    if ltb group_epoch p.epoch
    then (p, stale_epoch p.epoch)
    else if ltb p.epoch group_epoch
    then run_command settings group_epoch command (reset p group_epoch start_position)
    else run_command settings group_epoch command p

module _ (settings : AggregateGroupSettings) (epoch : ℕ) where
  pub run_command-IsValid :
      (command : AggregateGroupPartitionCommand) (p : AggregateGroupPartition)
      → IsValid p
      → IsValid (run_command settings epoch command p).0
  unfolding run_command
  run_command-IsValid (claim q max_claim candidates) p v =
      claim-IsValid q settings max_claim candidates p v
  run_command-IsValid (settle consumer_id now_ms settlements) p v =
      settle-IsValid now_ms settings consumer_id epoch settlements p v
  run_command-IsValid (renew consumer_id deadline_ms ids) p v =
      renew-IsValid consumer_id deadline_ms epoch ids p v
  run_command-IsValid (expire now_ms) p v = expire-IsValid now_ms settings p v

-- The state machine keeps the invariant of a stored partition, whatever the epoch of the command, if
-- the start position is a `u64`.
pub run_partition-IsValid :
    (settings : AggregateGroupSettings) (epoch start_position : ℕ)
    → (command : AggregateGroupPartitionCommand) (p : AggregateGroupPartition)
    → start_position ≤ u64_max
    → IsValid p
    → IsValid (run_partition settings epoch start_position command p).0
unfolding run_partition
run_partition-IsValid settings epoch start_position command p h v =
    elim (Bool-cases (ltb epoch p.epoch)) [
      | inl older ↦ rw older v
      | inr current ↦ rw current (elim (Bool-cases (ltb p.epoch epoch)) [
        | inl newer ↦ rw newer (
            run_command-IsValid settings epoch command (reset p epoch start_position)
              (unfold reset in new-IsValid epoch start_position h))
        | inr same ↦ rw same (run_command-IsValid settings epoch command p v)
      ])
    ]

-- The states of a partition that commands reach from a fresh one.
pub data IsReachable : AggregateGroupPartition → Type 0 where
  fresh :
      (epoch start_position : ℕ) → start_position ≤ u64_max → IsReachable (new epoch start_position)
  step :
      {p q : AggregateGroupPartition}
      → IsReachable p
      → (settings : AggregateGroupSettings) (epoch start_position : ℕ)
      → (command : AggregateGroupPartitionCommand) → start_position ≤ u64_max
      → q ≡ (run_partition settings epoch start_position command p).0
      → IsReachable q

pub IsReachable-IsValid : {p : AggregateGroupPartition} → IsReachable p → IsValid p
IsReachable-IsValid (fresh epoch start_position h) = new-IsValid epoch start_position h
IsReachable-IsValid (step {p = p} r settings epoch start_position command h e) =
    rw e (run_partition-IsValid settings epoch start_position command p h (IsReachable-IsValid r))

-- In every reachable state a delivery is the only one of its instance, no retry of the instance is
-- pending, the instance is leased to the consumer of the delivery until its deadline, and its
-- position is not behind the checkpoint.
pub one_holder :
    {p : AggregateGroupPartition}
    → IsReachable p
    → (i : Uuid) (d : AggregateGroupDelivery) → get i p.deliveries ≡ some d
    → ((j : Uuid) (e : AggregateGroupDelivery)
        → get j p.deliveries ≡ some e
        → e.aggregate_id ≡ d.aggregate_id
        → j ≡ i)
      × ((t : ℕ) (r : AggregateGroupRetry)
          → get t p.pending_retries ≡ some r
          → r.aggregate_id ≢ d.aggregate_id)
      × (get d.aggregate_id p.leases ≡ some (lease_of d))
      × (p.next_position ≤ d.partition_position)
one_holder r i d h =
    let v = IsReachable-IsValid r in
    (
      λ j e k same. v.one_delivery j i e d k h same,
      λ t s k same. ground (arith, v.exclusive i t d s),
      (v.held i d h).leased,
      (v.held i d h).unsettled.0,
    )
