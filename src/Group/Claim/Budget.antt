-- ===== src/Group/Claim/Budget.antt =====
-- How many deliveries a call of `claim` hands out.
use eventfs.Prelude.{
  ℕ, ◌+◌, ◌≤◌, ◌≡◌, min, Option, List, [], ◌∷◌, nat_ord, length, length-append, Bool-cases, inl,
  inr, arith,
}
use eventfs.Group.{
  AggregateGroupSettings, AggregateDeliveryCandidate, AggregateGroupRetry, AggregateGroupPartition,
}
use eventfs.Group.Progress.{available_credit}
use eventfs.Group.Settlement.{expire}
use eventfs.Group.Claim.{
  ClaimRequest, ClaimState, take, verdict, take_candidate, deliver, claim_loop, is_refused,
  claim_start, claim,
}
use eventfs.Group.Claim.Induction.{claim_loop_induction}

-- A candidate is only claimed while credit is left.
credit-take :
    (q : ClaimRequest) (c : AggregateDeliveryCandidate) (s : ClaimState)
    → (r : Option AggregateGroupRetry) → verdict q c s ≡ take r
    → 1 ≤ s.credit
unfolding verdict
credit-take q c s r h = ground arith

-- A call hands out no more deliveries than it asks for, and no more than the credit of the consumer
-- once the deliveries that have run out are expired.
pub length-claim :
    (q : ClaimRequest) (settings : AggregateGroupSettings) (max_claim : ℕ)
    → (cs : List AggregateDeliveryCandidate) (p : AggregateGroupPartition)
    → length (claim q settings max_claim cs p).1
      ≤ min (available_credit (expire q.now_ms settings p).0 q.consumer_id settings) max_claim
unfolding claim claim_start
length-claim q settings max_claim cs p =
    let credit =
      min (available_credit (expire q.now_ms settings p).0 q.consumer_id settings) max_claim in
    elim (Bool-cases (is_refused q settings max_claim)) [
      | inl refused ↦ rw refused (omega arith)
      | inr served ↦
          let spent : length (claim_loop q cs (claim_start q settings max_claim p)).claimed
                + (claim_loop q cs (claim_start q settings max_claim p)).credit
              ≤ credit =
            claim_loop_induction q (λ s. length s.claimed + s.credit ≤ credit)
              (λ c s r taken h.
                unfold take_candidate in
                omega (
                  arith,
                  credit-take q c s r taken,
                  length-append s.claimed (deliver q c r s.partition.epoch ∷ []),
                ))
              cs (claim_start q settings max_claim p) (omega arith) in
          rw served (omega (arith, spent))
    ]
