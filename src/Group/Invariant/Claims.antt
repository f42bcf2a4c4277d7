-- ===== src/Group/Invariant/Claims.antt =====
-- `claim` and the invariant of a partition.
use eventfs.Prelude.{
  ℕ, ◌≡◌, ◌≢◌, false, not, ◌&&◌, List, Option, none, some, ◌==◌, nat_ord, list_ord, eq_iff,
  Bool-cases, inl, inr, arith,
}
use eventfs.BTreeMap.{get, any_value}
use eventfs.BTreeMap.Laws.{get-insert, get-remove, any_value-false}
use eventfs.Group.{
  AggregateGroupSettings, AggregateDeliveryCandidate, AggregateGroupDelivery, AggregateGroupRetry,
  AggregateGroupPartition,
}
use eventfs.Group.Claim.{
  ClaimRequest, ClaimState, take, is_settled_or_delivered, is_blocked, verdict, deliver, hand_out,
  take_candidate, claim_loop, is_refused, claim_start, claim,
}
use eventfs.Group.Claim.Induction.{claim_loop_induction}
use eventfs.Group.Checkpoint.{IsOpen}
use eventfs.Group.Invariant.{IsHeld, IsValid, lease_of}
use eventfs.Group.Invariant.Commands.{expire-IsValid}

-- What the tests of the loop establish about a candidate that is claimed.
pub record IsClaimable (c : AggregateDeliveryCandidate) (p : AggregateGroupPartition) : Type 0 where
  pub unsettled : IsOpen p c.partition_position
  pub fresh : get c.delivery_id p.deliveries ≡ none
  pub undelivered :
      any_value (λ d. d.partition_position == c.partition_position) p.deliveries ≡ false
  pub unblocked :
      any_value
        (λ d.
          d.aggregate_id == c.aggregate_id && not (d.partition_position == c.partition_position))
        p.deliveries
      ≡ false
  pub unblocked_retry :
      any_value
        (λ r.
          r.aggregate_id == c.aggregate_id && not (r.partition_position == c.partition_position))
        p.pending_retries
      ≡ false

pub verdict-IsClaimable :
    (q : ClaimRequest) (c : AggregateDeliveryCandidate) (s : ClaimState)
    → (r : Option AggregateGroupRetry) → verdict q c s ≡ take r
    → IsClaimable c s.partition
unfolding verdict is_settled_or_delivered is_blocked
verdict-IsClaimable q c s r h = ground arith

module _ (c : AggregateDeliveryCandidate) (p : AggregateGroupPartition) (v : IsValid p)
    (k : IsClaimable c p) where
  apart :
      (i : ℕ) (e : AggregateGroupDelivery)
      → get i p.deliveries ≡ some e
      → (e.partition_position ≢ c.partition_position) × (e.aggregate_id ≢ c.aggregate_id)
  apart i e h = (
    λ s. ground (arith, elsewhere),
    λ s. ground (arith, elsewhere, other, eq_iff e.aggregate_id c.aggregate_id),
  )
    where
      elsewhere : (e.partition_position == c.partition_position) ≡ false
      elsewhere = any_value-false _ p.deliveries i e k.undelivered h

      other :
          (e.aggregate_id == c.aggregate_id && not (e.partition_position == c.partition_position))
          ≡ false
      other = any_value-false _ p.deliveries i e k.unblocked h

  retry_apart :
      (t : ℕ) (r : AggregateGroupRetry)
      → get t p.pending_retries ≡ some r
      → t ≢ c.partition_position
      → r.aggregate_id ≢ c.aggregate_id
  retry_apart t r h n s =
      ground (arith, other, eq_iff r.aggregate_id c.aggregate_id, v.scheduled t r)
    where
      other :
          (r.aggregate_id == c.aggregate_id && not (r.partition_position == c.partition_position))
          ≡ false
      other = any_value-false _ p.pending_retries t r k.unblocked_retry h

  module _ (q : ClaimRequest) (retry : Option AggregateGroupRetry) where
    IsHeld-hand_out :
        (i : ℕ) (e : AggregateGroupDelivery)
        → get i (hand_out q c retry p).deliveries ≡ some e
        → IsHeld (hand_out q c retry p) i e
    unfolding hand_out
    IsHeld-hand_out i e h = ground (
      arith,
      get-insert i c.delivery_id (deliver q c retry p.epoch) p.deliveries,
      get-insert e.aggregate_id c.aggregate_id (lease_of (deliver q c retry p.epoch)) p.leases,
      get-remove e.partition_position c.partition_position p.pending_retries,
      eq_iff e.aggregate_id c.aggregate_id,
      v.held i e,
      apart i e,
      k.unsettled,
    )

    pub hand_out-IsValid : IsValid (hand_out q c retry p)
    unfolding hand_out
    hand_out-IsValid =
        let d = deliver q c retry p.epoch in
        record {
          checkpoint = record { in_range = v.checkpoint.in_range; ahead = v.checkpoint.ahead };
          held = IsHeld-hand_out;
          scheduled = λ t r h.
              ground (arith, get-remove t c.partition_position p.pending_retries, v.scheduled t r);
          one_delivery = λ i j e f h l s. ground (
            arith,
            get-insert i c.delivery_id d p.deliveries,
            get-insert j c.delivery_id d p.deliveries,
            v.one_delivery i j e f,
            apart i e,
            apart j f,
          );
          one_position = λ i j e f h l s. ground (
            arith,
            get-insert i c.delivery_id d p.deliveries,
            get-insert j c.delivery_id d p.deliveries,
            v.one_position i j e f,
            apart i e,
            apart j f,
          );
          one_retry = λ t u r s h l e. ground (
            arith,
            get-remove t c.partition_position p.pending_retries,
            get-remove u c.partition_position p.pending_retries,
            v.one_retry t u r s,
          );
          exclusive = λ i t e r h l s. ground (
            arith,
            get-insert i c.delivery_id d p.deliveries,
            get-remove t c.partition_position p.pending_retries,
            v.exclusive i t e r,
            retry_apart t r,
          );
        }

claim_loop-IsValid :
    (q : ClaimRequest) (cs : List AggregateDeliveryCandidate) (s : ClaimState)
    → IsValid s.partition
    → IsValid (claim_loop q cs s).partition
claim_loop-IsValid q =
    claim_loop_induction q (λ s. IsValid s.partition)
      λ c s r e v.
        unfold take_candidate in
        hand_out-IsValid c s.partition v (verdict-IsClaimable q c s r e) q r

-- `claim` keeps the invariant.
pub claim-IsValid :
    (q : ClaimRequest) (settings : AggregateGroupSettings) (max_claim : ℕ)
    → (cs : List AggregateDeliveryCandidate) (p : AggregateGroupPartition) → IsValid p
    → IsValid (claim q settings max_claim cs p).0
unfolding claim
claim-IsValid q settings max_claim cs p v = elim (Bool-cases (is_refused q settings max_claim)) [
  | inl refused ↦ rw refused v
  | inr accepted ↦ rw accepted (
      claim_loop-IsValid q cs (claim_start q settings max_claim p)
        (unfold claim_start in expire-IsValid q.now_ms settings p v))
]
