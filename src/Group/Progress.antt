-- ===== src/Group/Progress.antt =====
-- `AggregateGroupPartition` of es-core/src/aggregate_group.rs: its construction, the checkpoint and
-- the private steps that the commands share.
use eventfs.Prelude.{
  ℕ, zero, suc, ◌-◌, ◌%◌, ◌^◌, min, Bool, ◌||◌, [], Text, ◌==◌, nat_ord, list_ord, ltb, length,
  if◌then◌else◌,
}
use eventfs.Prelude.Words.{sat_add64, sat_add32}
use eventfs.BTreeMap.{BTreeSet, insert, remove, contains_key, retain, any_value, count_values}
use eventfs.Group.{
  AggregateGroupSettings, Uuid, AggregateGroupDelivery, AggregateGroupRetry,
  AggregateGroupPartition,
}
use eventfs.Group.Settings.{retry_delay_ms}

unfoldable pub new : ℕ → ℕ → AggregateGroupPartition
new epoch next_position = record {
  epoch = epoch;
  next_position = next_position;
  resolved_gaps = [];
  leases = [];
  deliveries = [];
  pending_retries = [];
  parked = [];
}

unfoldable pub reset : AggregateGroupPartition → ℕ → ℕ → AggregateGroupPartition
unfolding new
reset p epoch next_position = new epoch next_position

-- `count() as u32` and `len() as u32` wrap.
unfoldable pub available_credit : AggregateGroupPartition → Text → AggregateGroupSettings → ℕ
available_credit p consumer_id settings =
    let consumer_used = count_values (λ d. d.consumer_id == consumer_id) p.deliveries % 2 ^ 32 in
    min (settings.max_unacked_per_consumer - consumer_used)
      (settings.max_unacked_per_group - length p.deliveries % 2 ^ 32)

-- `while self.resolved_gaps.remove(&self.next_position)`: one round for each gap at most.
unfoldable pub advance : ℕ → BTreeSet ℕ → ℕ → BTreeSet ℕ × ℕ
advance zero gaps next = (gaps, next)
advance (suc fuel) gaps next =
    let rest = advance fuel (remove next gaps) (sat_add64 next 1) in
    if contains_key next gaps then rest else (gaps, next)

unfoldable pub resolve : ℕ → AggregateGroupPartition → AggregateGroupPartition
resolve position p =
    if ltb position p.next_position
    then p
    else let gaps = insert position tt p.resolved_gaps in
      let (gaps', next) = advance (length gaps) gaps p.next_position in
      record p { next_position = next; resolved_gaps = gaps' }

unfoldable pub park_delivery :
    AggregateGroupDelivery → Text → ℕ → AggregateGroupPartition → AggregateGroupPartition
park_delivery d reason now_ms p =
    let p' = resolve d.partition_position p in
    record p' {
      parked =
          insert d.delivery_id
            (record {
              partition_position = d.partition_position;
              aggregate_id = d.aggregate_id;
              aggregate_version = d.aggregate_version;
              event_id = d.event_id;
              attempts = d.attempt;
              reason = reason;
              parked_at_ms = now_ms;
            })
            p'.parked;
    }

unfoldable pub schedule_retry :
    AggregateGroupDelivery → ℕ → ℕ → AggregateGroupSettings → AggregateGroupRetry
schedule_retry d attempt now_ms settings = record {
  partition_position = d.partition_position;
  aggregate_id = d.aggregate_id;
  aggregate_version = d.aggregate_version;
  event_id = d.event_id;
  attempt = attempt;
  not_before_ms = sat_add64 now_ms (retry_delay_ms settings attempt);
  replayed = d.replayed;
}

unfoldable pub retry_or_park :
    AggregateGroupDelivery
    → Text
    → ℕ
    → AggregateGroupSettings
    → AggregateGroupPartition
    → AggregateGroupPartition
retry_or_park d reason now_ms settings p =
    let attempt = sat_add32 d.attempt 1 in
    if ltb settings.max_retries attempt then park_delivery d reason now_ms p else record p {
      pending_retries =
          insert d.partition_position (schedule_retry d attempt now_ms settings) p.pending_retries;
    }

-- The set of active instances is only asked for membership.
unfoldable pub is_active : AggregateGroupPartition → Text → Bool
is_active p id =
    any_value (λ d. d.aggregate_id == id) p.deliveries
    || any_value (λ r. r.aggregate_id == id) p.pending_retries

unfoldable pub release_unused_leases : AggregateGroupPartition → AggregateGroupPartition
unfolding is_active
release_unused_leases p = record p { leases = retain (is_active p) p.leases }

unfoldable pub unsettle : Uuid → AggregateGroupPartition → AggregateGroupPartition
unsettle id p = record p { deliveries = remove id p.deliveries }
