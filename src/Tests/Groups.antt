-- ===== src/Tests/Groups.antt =====
-- A partition of a group.
use eventfs.Prelude.{
  length, min, ℕ, ◌≤◌, ◌≡◌, ◌≢◌, refl, false, ◌||◌, some, [], ◌∷◌, Text, ◌==◌, nat_ord, list_ord,
  arith,
}
use eventfs.Prelude.Ordered.{list_cmp}
use eventfs.BTreeMap.{get, insert, remove, retain, any_value, count_values}
use eventfs.Group.{
  AggregateGroupSettings, Uuid, AggregateDeliveryCandidate, AggregateGroupDelivery,
  AggregateGroupRetry, AggregateGroupPartition, ack,
}
use eventfs.Group.Settings
use eventfs.Group.Progress.{new, available_credit, resolve, release_unused_leases, is_active}
use eventfs.Group.Settlement.{expired_ids, expire_all, expire}
use eventfs.Group.Claim.{
  ClaimRequest, is_settled_or_delivered, is_withheld, is_blocked, is_leased_away, is_over_budget,
  verdict, retry_attempt, retry_replayed, deliver, hand_out, take_candidate, claim_loop, is_refused,
  claim_start,
}
use eventfs.Group.Claim
use eventfs.Group.Checkpoint.{GapsInRange, settled, settled-resolve}
use eventfs.Group.Invariant.{lease_of}
use eventfs.Group.Commands.{
  AggregateGroupPartitionCommand, claim, settle, run_command, run_partition, IsReachable, fresh,
  step, IsReachable-IsValid, one_holder,
}
use eventfs.Group.Claim.Budget.{length-claim}
use eventfs.Group.Monotone.{next_position-run_command}

abbrev settings : AggregateGroupSettings
settings = record {
  max_unacked_per_consumer = 8;
  max_unacked_per_group = 32;
  ack_timeout_ms = 30000;
  max_retries = 5;
  retry_min_ms = 100;
  retry_max_ms = 60000;
}

abbrev instance_name : Text
instance_name = b'a' ∷ b'1' ∷ []

abbrev consumer : Text
consumer = b'c' ∷ []

abbrev candidate : AggregateDeliveryCandidate
candidate = record {
  delivery_id = 70;
  partition_position = 0;
  aggregate_id = instance_name;
  aggregate_version = 1;
  event_id = 80;
  payload_bytes = 10;
  replayed = false;
}

abbrev request : ClaimRequest
request = record { consumer_id = consumer; now_ms = 100; deadline_ms = 30100; max_bytes = 1000 }

abbrev claim_one : AggregateGroupPartitionCommand
claim_one = claim request 4 (candidate ∷ [])

abbrev settle_one : AggregateGroupPartitionCommand
settle_one = settle consumer 200 (record { delivery_id = 70; action = ack; reason = [] } ∷ [])

abbrev delivery : AggregateGroupDelivery
delivery = record {
  delivery_id = 70;
  consumer_id = consumer;
  partition_position = 0;
  aggregate_id = instance_name;
  aggregate_version = 1;
  event_id = 80;
  attempt = 0;
  deadline_ms = 30100;
  group_epoch = 1;
  replayed = false;
}

abbrev claimed_partition : AggregateGroupPartition
claimed_partition = record {
  epoch = 1;
  next_position = 0;
  resolved_gaps = [];
  leases = (instance_name, lease_of delivery) ∷ [];
  deliveries = (70, delivery) ∷ [];
  pending_retries = [];
  parked = [];
}

candidate_claimed : claimed_partition ≡ (run_partition settings 1 0 claim_one (new 1 0)).0
unfolding new run_partition run_command Claim.claim claim_start is_refused Settings.validate expire
    expired_ids expire_all release_unused_leases available_credit claim_loop verdict
    is_settled_or_delivered is_withheld is_blocked is_leased_away is_over_budget take_candidate
    hand_out deliver retry_attempt retry_replayed get insert remove retain any_value count_values
    is_active list_cmp
candidate_claimed = refl

claimed-IsReachable : IsReachable claimed_partition
claimed-IsReachable =
    step (fresh 1 0 (omega arith)) settings 1 0 claim_one (omega arith) candidate_claimed

delivery_found : get 70 claimed_partition.deliveries ≡ some delivery
unfolding get
delivery_found = refl

one_holder_example :
    ((j : Uuid) (e : AggregateGroupDelivery)
      → get j claimed_partition.deliveries ≡ some e
      → e.aggregate_id ≡ delivery.aggregate_id
      → j ≡ 70)
    × ((t : ℕ) (r : AggregateGroupRetry)
        → get t claimed_partition.pending_retries ≡ some r
        → r.aggregate_id ≢ delivery.aggregate_id)
    × (get delivery.aggregate_id claimed_partition.leases ≡ some (lease_of delivery))
    × (claimed_partition.next_position ≤ delivery.partition_position)
one_holder_example = one_holder claimed-IsReachable 70 delivery delivery_found

next_position-run_command_example :
    claimed_partition.next_position
    ≤ (run_command settings 1 settle_one claimed_partition).0.next_position
next_position-run_command_example =
    next_position-run_command settings 1 settle_one claimed_partition
      (IsReachable-IsValid claimed-IsReachable).checkpoint

abbrev gapped_partition : AggregateGroupPartition
gapped_partition = record claimed_partition {
  next_position = 4;
  resolved_gaps = (5, tt) ∷ (8, tt) ∷ [];
}

gapped_in_range : GapsInRange gapped_partition
unfolding get
gapped_in_range x h = ground arith

abbrev last_gap : ℕ
last_gap = 8

settled-resolve_example :
    settled (resolve 4 gapped_partition) last_gap
    ≡ (last_gap == 4 || settled gapped_partition last_gap)
settled-resolve_example = settled-resolve 4 gapped_partition (omega arith) gapped_in_range last_gap

length-claim_example :
    length (Claim.claim request settings 4 (candidate ∷ []) (new 1 0)).1
    ≤ min (available_credit (expire request.now_ms settings (new 1 0)).0 consumer settings) 4
length-claim_example = length-claim request settings 4 (candidate ∷ []) (new 1 0)

-- The delivery has time until 30100.
delivery_is_left : get 70 (expire 200 settings claimed_partition).0.deliveries ≡ some delivery
unfolding expire expired_ids expire_all release_unused_leases get
delivery_is_left = refl
