-- ===== src/Group/Invariant/Commands.antt =====
-- `expire`, `settle` and `renew` and the invariant of a partition.
use eventfs.Prelude.{
  ℕ, ◌≡◌, Text, List, [], ◌∷◌, some, ◌==◌, nat_ord, list_ord, eq_iff, Bool-cases, Option-cases, inl,
  inr, max, arith, if◌then◌else◌,
}
use eventfs.BTreeMap.{get, insert}
use eventfs.BTreeMap.Laws.{get-insert}
use eventfs.Group.{
  AggregateGroupSettings, Uuid, AggregateGroupDelivery, AggregateGroupPartition,
  AggregateSettlement, AggregateSettlementAction, ack, retry, park, skip,
}
use eventfs.Group.Progress.{unsettle}
use eventfs.Group.Settlement.{
  ack_timeout, expired_ids, expire_one, expire_all, expire, settle_action, settle_one, settle_all,
  settle, renew_lease, renew_one, renew_all, renew,
}
use eventfs.Group.Invariant.{IsValid, IsLoose, lease_of}
use eventfs.Group.Invariant.Steps.{
  unsettle-IsValid, unsettle-IsLoose, resolve-IsValid, park-IsValid, retry_or_park-IsValid,
  release-IsValid,
}

module _ (now_ms : ℕ) (settings : AggregateGroupSettings) where
  expire_one-IsValid :
      (id : Uuid) (p : AggregateGroupPartition)
      → IsValid p
      → IsValid (expire_one now_ms settings id p)
  unfolding expire_one
  expire_one-IsValid id p v = elim (Option-cases (get id p.deliveries)) [
    | inl missing ↦ rw (missing, expire_one) v
    | inr (d, found) ↦
        rw (found, expire_one)
          (retry_or_park-IsValid d (unsettle id p) (unsettle-IsValid id p v)
            (unsettle-IsLoose id p v d found) ack_timeout now_ms settings)
  ]

  expire_all-IsValid :
      (ids : List Uuid) (p : AggregateGroupPartition)
      → IsValid p
      → IsValid (expire_all now_ms settings ids p)
  unfolding expire_all
  expire_all-IsValid [] p v = v
  expire_all-IsValid (id ∷ ids) p v =
      expire_all-IsValid ids (expire_one now_ms settings id p) (expire_one-IsValid id p v)

  -- `expire` keeps the invariant.
  pub expire-IsValid :
      (p : AggregateGroupPartition) → IsValid p → IsValid (expire now_ms settings p).0
  unfolding expire
  expire-IsValid p v =
      release-IsValid (expire_all now_ms settings (expired_ids now_ms p.deliveries) p)
        (expire_all-IsValid (expired_ids now_ms p.deliveries) p v)

  settle_action-IsValid :
      (s : AggregateSettlement) (d : AggregateGroupDelivery) (p : AggregateGroupPartition)
      → IsValid p
      → IsLoose p d
      → IsValid (settle_action s d now_ms settings p)
  unfolding settle_action
  settle_action-IsValid s d p v f = by_action s.action
    where
      by_action :
          (a : AggregateSettlementAction)
          → IsValid (settle_action (record s { action = a }) d now_ms settings p)
      by_action ack = resolve-IsValid d.partition_position p v f.free
      by_action skip = resolve-IsValid d.partition_position p v f.free
      by_action retry = retry_or_park-IsValid d p v f s.reason now_ms settings
      by_action park = park-IsValid d p v f s.reason now_ms

  module _ (consumer_id : Text) where
    settle_one-IsValid :
        (s : AggregateSettlement) (p : AggregateGroupPartition)
        → IsValid p
        → IsValid (settle_one consumer_id now_ms settings s p).0
    unfolding settle_one
    settle_one-IsValid s p v = elim (Option-cases (get s.delivery_id p.deliveries)) [
      | inl missing ↦ rw (missing, settle_one) v
      | inr (d, found) ↦
          rw (found, settle_one)
            (elim (Bool-cases (d.consumer_id == consumer_id)) [
              | inl own ↦ rw own (
                  settle_action-IsValid s d (unsettle s.delivery_id p)
                    (unsettle-IsValid s.delivery_id p v)
                    (unsettle-IsLoose s.delivery_id p v d found))
              | inr other ↦ rw other v
            ])
    ]

    settle_all-IsValid :
        (ss : List AggregateSettlement) (p : AggregateGroupPartition)
        → IsValid p
        → IsValid (settle_all consumer_id now_ms settings ss p).0
    unfolding settle_all
    settle_all-IsValid [] p v = v
    settle_all-IsValid (s ∷ ss) p v =
        settle_all-IsValid ss (settle_one consumer_id now_ms settings s p).0
          (settle_one-IsValid s p v)

    -- `settle` keeps the invariant.
    pub settle-IsValid :
        (epoch : ℕ) (ss : List AggregateSettlement) (p : AggregateGroupPartition)
        → IsValid p
        → IsValid (settle consumer_id epoch now_ms settings ss p).0
    unfolding settle
    settle-IsValid epoch ss p v = elim (Bool-cases (epoch == p.epoch)) [
      | inl current ↦ rw current (
          release-IsValid (settle_all consumer_id now_ms settings ss p).0
            (settle_all-IsValid ss p v))
      | inr stale ↦ rw stale v
    ]

get-renew_lease :
    (j id : Text) (deadline_ms : ℕ) (d : AggregateGroupDelivery) (p : AggregateGroupPartition)
    → get id p.leases ≡ some (lease_of d)
    → get j (renew_lease id deadline_ms p.leases) ≡ (
        if j == id
        then some (lease_of (record d { deadline_ms = max d.deadline_ms deadline_ms }))
        else get j p.leases)
unfolding renew_lease
get-renew_lease j id deadline_ms d p h = ground (
  arith,
  get-insert j id (lease_of (record d { deadline_ms = max d.deadline_ms deadline_ms })) p.leases,
)

module _ (consumer_id : Text) (deadline_ms : ℕ) where
  renewed-IsValid :
      (id : Uuid) (d : AggregateGroupDelivery) (p : AggregateGroupPartition)
      → IsValid p
      → get id p.deliveries ≡ some d
      → IsValid (record p {
        deliveries =
            insert id (record d { deadline_ms = max d.deadline_ms deadline_ms }) p.deliveries;
        leases = renew_lease d.aggregate_id deadline_ms p.leases;
      })
  renewed-IsValid id d p v found =
      let d' : AggregateGroupDelivery = record d { deadline_ms = max d.deadline_ms deadline_ms } in
      record {
        checkpoint = record { in_range = v.checkpoint.in_range; ahead = v.checkpoint.ahead };
        held = λ i e h. ground (
          arith,
          v.held i e,
          v.held id d,
          get-insert i id d' p.deliveries,
          get-renew_lease e.aggregate_id d.aggregate_id deadline_ms d p,
          eq_iff e.aggregate_id d.aggregate_id,
          v.one_delivery i id e d,
        );
        scheduled = λ q r h. ground (arith, v.scheduled q r);
        one_delivery = λ i j e f h k s. ground (
          arith,
          get-insert i id d' p.deliveries,
          get-insert j id d' p.deliveries,
          v.one_delivery i j e f,
          v.one_delivery i id e d,
          v.one_delivery id j d f,
        );
        one_position = λ i j e f h k s. ground (
          arith,
          get-insert i id d' p.deliveries,
          get-insert j id d' p.deliveries,
          v.one_position i j e f,
          v.one_position i id e d,
          v.one_position id j d f,
        );
        one_retry = v.one_retry;
        exclusive = λ i q e r h k s.
            ground
              (arith, get-insert i id d' p.deliveries, v.exclusive i q e r, v.exclusive id q d r);
      }

  renew_one-IsValid :
      (id : Uuid) (p : AggregateGroupPartition)
      → IsValid p
      → IsValid (renew_one consumer_id deadline_ms id p).0
  unfolding renew_one
  renew_one-IsValid id p v = elim (Option-cases (get id p.deliveries)) [
    | inl missing ↦ rw (missing, renew_one) v
    | inr (d, found) ↦
        rw (found, renew_one)
          (elim (Bool-cases (d.consumer_id == consumer_id)) [
            | inl own ↦ rw own (renewed-IsValid id d p v found)
            | inr other ↦ rw other v
          ])
  ]

  renew_all-IsValid :
      (ids : List Uuid) (p : AggregateGroupPartition)
      → IsValid p
      → IsValid (renew_all consumer_id deadline_ms ids p).0
  unfolding renew_all
  renew_all-IsValid [] p v = v
  renew_all-IsValid (id ∷ ids) p v =
      renew_all-IsValid ids (renew_one consumer_id deadline_ms id p).0 (renew_one-IsValid id p v)

  -- `renew` keeps the invariant.
  pub renew-IsValid :
      (epoch : ℕ) (ids : List Uuid) (p : AggregateGroupPartition)
      → IsValid p
      → IsValid (renew consumer_id epoch deadline_ms ids p).0
  unfolding renew
  renew-IsValid epoch ids p v = elim (Bool-cases (epoch == p.epoch)) [
    | inl current ↦ rw current (renew_all-IsValid ids p v)
    | inr stale ↦ rw stale v
  ]
