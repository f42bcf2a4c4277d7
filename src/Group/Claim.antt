-- ===== src/Group/Claim.antt =====
-- `AggregateGroupPartition::claim` of es-core/src/aggregate_group.rs.
pub mod Induction
pub mod Budget
use eventfs.Prelude.{
  ℕ, zero, suc, ◌+◌, ◌-◌, min, Bool, true, false, not, ◌&&◌, ◌||◌, Option, none, some, List, [],
  ◌∷◌, ◌++◌, Text, ◌==◌, nat_ord, list_ord, ltb, leb, length, if◌then◌else◌, Result, ok, err,
}
use eventfs.Prelude.Words.{sat_add64}
use eventfs.BTreeMap.{get, insert, remove, contains_key, any_value}
use eventfs.Group.{
  AggregateGroupSettings, AggregateDeliveryCandidate, AggregateGroupDelivery, AggregateGroupRetry,
  AggregateInstanceLease, AggregateGroupPartition,
}
use eventfs.Group.Settings
use eventfs.Group.Progress.{available_credit}
use eventfs.Group.Settlement.{expire}

-- The arguments of a call that the loop does not change.
pub record ClaimRequest : Type 0 where
  pub consumer_id : Text
  pub now_ms : ℕ
  pub deadline_ms : ℕ
  pub max_bytes : ℕ

-- The variables of the loop; `claimed` is in the order of the pushes.
pub record ClaimState : Type 0 where
  pub partition : AggregateGroupPartition
  pub credit : ℕ
  pub claimed_bytes : ℕ
  pub claimed : List AggregateGroupDelivery

-- What the loop does with a candidate: leave the loop, go on to the next, or claim it, with the
-- pending retry that it answers.
pub data Verdict : Type 0 where
  halt pass : Verdict
  take : Option AggregateGroupRetry → Verdict

-- The candidate is resolved or delivered already.
unfoldable pub is_settled_or_delivered : AggregateDeliveryCandidate → AggregateGroupPartition → Bool
is_settled_or_delivered c p =
    contains_key c.partition_position p.resolved_gaps
    || contains_key c.delivery_id p.deliveries
    || any_value (λ d. d.partition_position == c.partition_position) p.deliveries

-- A retry that is not due or is for another event, or a replayed candidate with no retry.
unfoldable pub is_withheld : ℕ → AggregateDeliveryCandidate → Option AggregateGroupRetry → Bool
is_withheld now_ms c (some r) = ltb now_ms r.not_before_ms || not (r.event_id == c.event_id)
is_withheld now_ms c none = c.replayed

-- Another position of the instance is delivered or waits for a retry.
unfoldable pub is_blocked : AggregateDeliveryCandidate → AggregateGroupPartition → Bool
is_blocked c p =
    any_value
      (λ d. d.aggregate_id == c.aggregate_id && not (d.partition_position == c.partition_position))
      p.deliveries
    || any_value
        (λ r.
          r.aggregate_id == c.aggregate_id && not (r.partition_position == c.partition_position))
        p.pending_retries

-- Another consumer holds a lease on the instance that has not run out.
unfoldable pub is_leased_away :
    ClaimRequest → AggregateDeliveryCandidate → AggregateGroupPartition → Bool
is_leased_away q c p = elim (get c.aggregate_id p.leases) [
  | none ↦ false
  | some l ↦ not (l.consumer_id == q.consumer_id) && ltb q.now_ms l.deadline_ms
]

unfoldable pub is_over_budget : ClaimRequest → AggregateDeliveryCandidate → ClaimState → Bool
is_over_budget q c s =
    not (length s.claimed == 0) && ltb q.max_bytes (sat_add64 s.claimed_bytes c.payload_bytes)

unfoldable pub verdict : ClaimRequest → AggregateDeliveryCandidate → ClaimState → Verdict
verdict q c s =
    let p = s.partition in
    let retry = get c.partition_position p.pending_retries in
    if s.credit == 0 || ltb c.partition_position p.next_position
    then halt
    else if is_settled_or_delivered c p
    then pass
    else if is_withheld q.now_ms c retry
    then pass
    else if is_blocked c p
    then pass
    else if is_leased_away q c p
    then pass
    else if is_over_budget q c s
    then halt
    else take retry

unfoldable pub retry_attempt : Option AggregateGroupRetry → ℕ
retry_attempt none = 0
retry_attempt (some r) = r.attempt

unfoldable pub retry_replayed : Option AggregateGroupRetry → Bool → Bool
retry_replayed none replayed = replayed
retry_replayed (some r) replayed = r.replayed

unfoldable pub deliver :
    ClaimRequest
    → AggregateDeliveryCandidate
    → Option AggregateGroupRetry
    → ℕ
    → AggregateGroupDelivery
unfolding retry_attempt retry_replayed
deliver q c retry epoch = record {
  delivery_id = c.delivery_id;
  consumer_id = q.consumer_id;
  partition_position = c.partition_position;
  aggregate_id = c.aggregate_id;
  aggregate_version = c.aggregate_version;
  event_id = c.event_id;
  attempt = retry_attempt retry;
  deadline_ms = q.deadline_ms;
  group_epoch = epoch;
  replayed = retry_replayed retry c.replayed;
}

-- The delivery enters the partition; a retry that it answers is no longer pending.
unfoldable pub hand_out :
    ClaimRequest
    → AggregateDeliveryCandidate
    → Option AggregateGroupRetry
    → AggregateGroupPartition
    → AggregateGroupPartition
unfolding deliver
hand_out q c retry p = record p {
  pending_retries = remove c.partition_position p.pending_retries;
  leases =
      insert c.aggregate_id
        (record { consumer_id = q.consumer_id; group_epoch = p.epoch; deadline_ms = q.deadline_ms })
        p.leases;
  deliveries = insert c.delivery_id (deliver q c retry p.epoch) p.deliveries;
}

unfoldable pub take_candidate :
    ClaimRequest → AggregateDeliveryCandidate → Option AggregateGroupRetry → ClaimState → ClaimState
unfolding hand_out deliver
take_candidate q c retry s = record {
  partition = hand_out q c retry s.partition;
  credit = s.credit - 1;
  claimed_bytes = sat_add64 s.claimed_bytes c.payload_bytes;
  claimed = s.claimed ++ deliver q c retry s.partition.epoch ∷ [];
}

unfoldable pub claim_loop : ClaimRequest → List AggregateDeliveryCandidate → ClaimState → ClaimState
claim_loop q [] s = s
claim_loop q (c ∷ cs) s = elim (verdict q c s) [
  | halt ↦ s
  | pass ↦ claim_loop q cs s
  | take retry ↦ claim_loop q cs (take_candidate q c retry s)
]

unfoldable pub is_err : {E A : Type 0} → Result E A → Bool
is_err (ok a) = false
is_err (err e) = true

unfoldable pub is_refused : ClaimRequest → AggregateGroupSettings → ℕ → Bool
unfolding is_err
is_refused q settings max_claim =
    length q.consumer_id == 0
    || leb q.deadline_ms q.now_ms
    || max_claim == 0
    || q.max_bytes == 0
    || is_err (Settings.validate settings)

unfoldable pub claim_start :
    ClaimRequest → AggregateGroupSettings → ℕ → AggregateGroupPartition → ClaimState
claim_start q settings max_claim p =
    let (p', expired) = expire q.now_ms settings p in
    record {
      partition = p';
      credit = min (available_credit p' q.consumer_id settings) max_claim;
      claimed_bytes = 0;
      claimed = [];
    }

unfoldable pub claim :
    ClaimRequest
    → AggregateGroupSettings
    → ℕ
    → List AggregateDeliveryCandidate
    → AggregateGroupPartition
    → AggregateGroupPartition × List AggregateGroupDelivery
unfolding is_refused
claim q settings max_claim candidates p =
    if is_refused q settings max_claim
    then (p, [])
    else let s = claim_loop q candidates (claim_start q settings max_claim p) in
      (s.partition, s.claimed)
