-- ===== src/Group/Monotone.antt =====
-- How the commands of a group partition move its checkpoint.
use eventfs.Prelude.{
  ℕ, ◌≤◌, ◌≡◌, refl, Text, List, [], ◌∷◌, ◌==◌, nat_ord, list_ord, ltb, Bool-cases, Option-cases,
  inl, inr, arith,
}
use eventfs.Prelude.Words.{sat_add32}
use eventfs.BTreeMap.{get}
use eventfs.Group.{
  AggregateGroupSettings, Uuid, AggregateDeliveryCandidate, AggregateGroupDelivery,
  AggregateGroupPartition, AggregateSettlement, AggregateSettlementAction, ack, retry, park, skip,
}
use eventfs.Group.Progress.{resolve, park_delivery, retry_or_park, release_unused_leases, unsettle}
use eventfs.Group.Settlement.{
  ack_timeout, expired_ids, expire_one, expire_all, settle_action, settle_one, settle_all,
  renew_one, renew_all,
}
use eventfs.Group.Settlement
use eventfs.Group.Claim
use eventfs.Group.Claim.{
  ClaimRequest, ClaimState, hand_out, take_candidate, claim_loop, claim_start, is_refused,
}
use eventfs.Group.Claim.Induction.{claim_loop_induction}
use eventfs.Group.Checkpoint.{IsCheckpoint, resolve-IsCheckpoint, next_position-resolve}
use eventfs.Group.Commands.{
  AggregateGroupPartitionCommand, claim, settle, renew, expire, run_command,
}

-- Between the two states the checkpoint has stayed a checkpoint and has not gone back.
pub record Advances (p q : AggregateGroupPartition) : Type 0 where
  pub checkpoint : IsCheckpoint q
  pub forward : p.next_position ≤ q.next_position

Advances-refl : (p : AggregateGroupPartition) → IsCheckpoint p → Advances p p
Advances-refl p c = record { checkpoint = c; forward = omega arith }

Advances-trans : (p q r : AggregateGroupPartition) → Advances p q → Advances q r → Advances p r
Advances-trans p q r a b = record { checkpoint = b.checkpoint; forward = omega arith }

-- Only the checkpoint and the gaps matter.
same_checkpoint :
    (p q : AggregateGroupPartition)
    → q.next_position ≡ p.next_position
    → q.resolved_gaps ≡ p.resolved_gaps
    → IsCheckpoint p
    → Advances p q
same_checkpoint p q n g c = record {
  checkpoint = record { in_range = omega arith; ahead = λ x h. ground (arith, c.ahead x) };
  forward = omega arith;
}

Advances-unsettle :
    (id : Uuid) (p : AggregateGroupPartition) → IsCheckpoint p → Advances p (unsettle id p)
unfolding unsettle
Advances-unsettle id p c = same_checkpoint p (unsettle id p) refl refl c

Advances-resolve : (x : ℕ) (p : AggregateGroupPartition) → IsCheckpoint p → Advances p (resolve x p)
Advances-resolve x p c = record {
  checkpoint = resolve-IsCheckpoint x p c;
  forward = next_position-resolve x p c;
}

module _ (now_ms : ℕ) (settings : AggregateGroupSettings) where
  Advances-park :
      (d : AggregateGroupDelivery) (reason : Text) (p : AggregateGroupPartition)
      → IsCheckpoint p
      → Advances p (park_delivery d reason now_ms p)
  unfolding park_delivery
  Advances-park d reason p c =
      let a = Advances-resolve d.partition_position p c in
      record {
        checkpoint = record { in_range = a.checkpoint.in_range; ahead = a.checkpoint.ahead };
        forward = a.forward;
      }

  Advances-retry :
      (d : AggregateGroupDelivery) (reason : Text) (p : AggregateGroupPartition)
      → IsCheckpoint p
      → Advances p (retry_or_park d reason now_ms settings p)
  unfolding retry_or_park
  Advances-retry d reason p c =
      elim (Bool-cases (ltb settings.max_retries (sat_add32 d.attempt 1))) [
        | inl spent ↦ rw spent (Advances-park d reason p c)
        | inr left ↦ rw left (same_checkpoint p _ refl refl c)
      ]

  Advances-expire_one :
      (id : Uuid) (p : AggregateGroupPartition)
      → IsCheckpoint p
      → Advances p (expire_one now_ms settings id p)
  unfolding expire_one
  Advances-expire_one id p c = elim (Option-cases (get id p.deliveries)) [
    | inl missing ↦ rw (missing, expire_one) (Advances-refl p c)
    | inr (d, found) ↦
        rw (found, expire_one)
          (let a = Advances-unsettle id p c in
            Advances-trans p (unsettle id p) _ a
              (Advances-retry d ack_timeout (unsettle id p) a.checkpoint))
  ]

  Advances-expire_all :
      (ids : List Uuid) (p : AggregateGroupPartition)
      → IsCheckpoint p
      → Advances p (expire_all now_ms settings ids p)
  unfolding expire_all
  Advances-expire_all [] p c = Advances-refl p c
  Advances-expire_all (id ∷ ids) p c =
      let a = Advances-expire_one id p c in
      Advances-trans p (expire_one now_ms settings id p) _ a
        (Advances-expire_all ids (expire_one now_ms settings id p) a.checkpoint)

  Advances-expire :
      (p : AggregateGroupPartition)
      → IsCheckpoint p
      → Advances p (Settlement.expire now_ms settings p).0
  unfolding Settlement.expire release_unused_leases
  Advances-expire p c =
      let q = expire_all now_ms settings (expired_ids now_ms p.deliveries) p in
      let a = Advances-expire_all (expired_ids now_ms p.deliveries) p c in
      Advances-trans p q _ a (same_checkpoint q _ refl refl a.checkpoint)

  Advances-settle_action :
      (s : AggregateSettlement) (d : AggregateGroupDelivery) (p : AggregateGroupPartition)
      → IsCheckpoint p
      → Advances p (settle_action s d now_ms settings p)
  unfolding settle_action
  Advances-settle_action s d p c = by_action s.action
    where
      by_action :
          (a : AggregateSettlementAction)
          → Advances p (settle_action (record s { action = a }) d now_ms settings p)
      by_action ack = Advances-resolve d.partition_position p c
      by_action skip = Advances-resolve d.partition_position p c
      by_action retry = Advances-retry d s.reason p c
      by_action park = Advances-park d s.reason p c

  Advances-settle_one :
      (consumer_id : Text) (s : AggregateSettlement) (p : AggregateGroupPartition)
      → IsCheckpoint p
      → Advances p (settle_one consumer_id now_ms settings s p).0
  unfolding settle_one
  Advances-settle_one consumer_id s p c = elim (Option-cases (get s.delivery_id p.deliveries)) [
    | inl missing ↦ rw (missing, settle_one) (Advances-refl p c)
    | inr (d, found) ↦
        rw (found, settle_one)
          (elim (Bool-cases (d.consumer_id == consumer_id)) [
            | inl own ↦ rw own (
                let a = Advances-unsettle s.delivery_id p c in
                Advances-trans p (unsettle s.delivery_id p) _ a
                  (Advances-settle_action s d (unsettle s.delivery_id p) a.checkpoint))
            | inr other ↦ rw other (Advances-refl p c)
          ])
  ]

  Advances-settle_all :
      (consumer_id : Text) (ss : List AggregateSettlement) (p : AggregateGroupPartition)
      → IsCheckpoint p
      → Advances p (settle_all consumer_id now_ms settings ss p).0
  unfolding settle_all
  Advances-settle_all consumer_id [] p c = Advances-refl p c
  Advances-settle_all consumer_id (s ∷ ss) p c =
      let q = (settle_one consumer_id now_ms settings s p).0 in
      let a = Advances-settle_one consumer_id s p c in
      Advances-trans p q _ a (Advances-settle_all consumer_id ss q a.checkpoint)

  Advances-settle :
      (consumer_id : Text) (epoch : ℕ) (ss : List AggregateSettlement) (p : AggregateGroupPartition)
      → IsCheckpoint p
      → Advances p (Settlement.settle consumer_id epoch now_ms settings ss p).0
  unfolding Settlement.settle release_unused_leases
  Advances-settle consumer_id epoch ss p c = elim (Bool-cases (epoch == p.epoch)) [
    | inl current ↦ rw current (
        let q = (settle_all consumer_id now_ms settings ss p).0 in
        let a = Advances-settle_all consumer_id ss p c in
        Advances-trans p q _ a (same_checkpoint q _ refl refl a.checkpoint))
    | inr stale ↦ rw stale (Advances-refl p c)
  ]

Advances-renew_one :
    (consumer_id : Text) (deadline_ms : ℕ) (id : Uuid) (p : AggregateGroupPartition)
    → IsCheckpoint p
    → Advances p (renew_one consumer_id deadline_ms id p).0
unfolding renew_one
Advances-renew_one consumer_id deadline_ms id p c = elim (Option-cases (get id p.deliveries)) [
  | inl missing ↦ rw (missing, renew_one) (Advances-refl p c)
  | inr (d, found) ↦
      rw (found, renew_one)
        (elim (Bool-cases (d.consumer_id == consumer_id)) [
          | inl own ↦ rw own (same_checkpoint p _ refl refl c)
          | inr other ↦ rw other (Advances-refl p c)
        ])
]

Advances-renew_all :
    (consumer_id : Text) (deadline_ms : ℕ) (ids : List Uuid) (p : AggregateGroupPartition)
    → IsCheckpoint p
    → Advances p (renew_all consumer_id deadline_ms ids p).0
unfolding renew_all
Advances-renew_all consumer_id deadline_ms [] p c = Advances-refl p c
Advances-renew_all consumer_id deadline_ms (id ∷ ids) p c =
    let q = (renew_one consumer_id deadline_ms id p).0 in
    let a = Advances-renew_one consumer_id deadline_ms id p c in
    Advances-trans p q _ a (Advances-renew_all consumer_id deadline_ms ids q a.checkpoint)

Advances-claim :
    (q : ClaimRequest) (settings : AggregateGroupSettings) (max_claim : ℕ)
    → (cs : List AggregateDeliveryCandidate) (p : AggregateGroupPartition) → IsCheckpoint p
    → Advances p (Claim.claim q settings max_claim cs p).0
unfolding Claim.claim claim_start
Advances-claim q settings max_claim cs p c = elim (Bool-cases (is_refused q settings max_claim)) [
  | inl refused ↦ rw refused (Advances-refl p c)
  | inr served ↦ rw served (
      claim_loop_induction q (λ s. Advances p s.partition)
        (λ e s r taken h.
          unfold take_candidate hand_out in
          Advances-trans p s.partition _ h (same_checkpoint s.partition _ refl refl h.checkpoint))
        cs (claim_start q settings max_claim p) (Advances-expire q.now_ms settings p c))
]

-- No command moves the checkpoint back, if the gaps of the partition lie ahead of the checkpoint.
pub next_position-run_command :
    (settings : AggregateGroupSettings) (epoch : ℕ) (command : AggregateGroupPartitionCommand)
    → (p : AggregateGroupPartition) → IsCheckpoint p
    → p.next_position ≤ (run_command settings epoch command p).0.next_position
unfolding run_command
next_position-run_command settings epoch (claim q max_claim cs) p c =
    (Advances-claim q settings max_claim cs p c).forward
next_position-run_command settings epoch (settle consumer_id now_ms ss) p c =
    (Advances-settle now_ms settings consumer_id epoch ss p c).forward
next_position-run_command settings epoch (renew consumer_id deadline_ms ids) p c =
    elim (Bool-cases (epoch == p.epoch)) [
      | inl current ↦
          unfold Settlement.renew in
          rw current (Advances-renew_all consumer_id deadline_ms ids p c).forward
      | inr stale ↦ unfold Settlement.renew in rw stale (omega arith)
    ]
next_position-run_command settings epoch (expire now_ms) p c =
    (Advances-expire now_ms settings p c).forward
