-- ===== src/Group/Settlement.antt =====
-- `expire`, `settle` and `renew` of es-core/src/aggregate_group.rs.
pub mod Expiry
use eventfs.Prelude.{
  ℕ, max, not, none, some, List, [], ◌∷◌, Text, ◌==◌, nat_ord, list_ord, leb, length, replicate,
  if◌then◌else◌,
}
use eventfs.BTreeMap.{BTreeMap, get, insert}
use eventfs.Group.{
  AggregateGroupSettings, Uuid, AggregateGroupDelivery, AggregateInstanceLease,
  AggregateGroupPartition, AggregateSettlement, AggregateSettlementResult, ack, retry, park, skip,
  applied, already_settled, stale_lease, wrong_consumer,
}
use eventfs.Group.Progress.{resolve, park_delivery, retry_or_park, release_unused_leases, unsettle}

-- "ack timeout"
abbrev pub ack_timeout : Text
ack_timeout = b'a' ∷ b'c' ∷ b'k' ∷ b' ' ∷ b't' ∷ b'i' ∷ b'm' ∷ b'e' ∷ b'o' ∷ b'u' ∷ b't' ∷ []

unfoldable pub expired_ids : ℕ → BTreeMap Uuid AggregateGroupDelivery → List Uuid
expired_ids now_ms [] = []
expired_ids now_ms ((id, d) ∷ m) =
    let rest = expired_ids now_ms m in if leb d.deadline_ms now_ms then id ∷ rest else rest

unfoldable pub expire_one :
    ℕ → AggregateGroupSettings → Uuid → AggregateGroupPartition → AggregateGroupPartition
expire_one now_ms settings id p = elim (get id p.deliveries) [
  | none ↦ p
  | some d ↦ retry_or_park d ack_timeout now_ms settings (unsettle id p)
]

unfoldable pub expire_all :
    ℕ → AggregateGroupSettings → List Uuid → AggregateGroupPartition → AggregateGroupPartition
expire_all now_ms settings [] p = p
expire_all now_ms settings (id ∷ ids) p =
    expire_all now_ms settings ids (expire_one now_ms settings id p)

unfoldable pub expire :
    ℕ → AggregateGroupSettings → AggregateGroupPartition → AggregateGroupPartition × ℕ
expire now_ms settings p =
    let expired = expired_ids now_ms p.deliveries in
    (release_unused_leases (expire_all now_ms settings expired p), length expired)

unfoldable pub settle_action :
    AggregateSettlement
    → AggregateGroupDelivery
    → ℕ
    → AggregateGroupSettings
    → AggregateGroupPartition
    → AggregateGroupPartition
settle_action s d now_ms settings p = elim s.action [
  | ack ↦ resolve d.partition_position p
  | skip ↦ resolve d.partition_position p
  | retry ↦ retry_or_park d s.reason now_ms settings p
  | park ↦ park_delivery d s.reason now_ms p
]

unfoldable pub settle_one :
    Text
    → ℕ
    → AggregateGroupSettings
    → AggregateSettlement
    → AggregateGroupPartition
    → AggregateGroupPartition × AggregateSettlementResult
settle_one consumer_id now_ms settings s p = elim (get s.delivery_id p.deliveries) [
  | none ↦ (p, already_settled)
  | some d ↦
      if not (d.consumer_id == consumer_id)
      then (p, wrong_consumer)
      else (settle_action s d now_ms settings (unsettle s.delivery_id p), applied)
]

unfoldable pub settle_all :
    Text
    → ℕ
    → AggregateGroupSettings
    → List AggregateSettlement
    → AggregateGroupPartition
    → AggregateGroupPartition × List AggregateSettlementResult
settle_all consumer_id now_ms settings [] p = (p, [])
settle_all consumer_id now_ms settings (s ∷ ss) p =
    let (p', result) = settle_one consumer_id now_ms settings s p in
    let (p'', results) = settle_all consumer_id now_ms settings ss p' in (p'', result ∷ results)

unfoldable pub settle :
    Text
    → ℕ
    → ℕ
    → AggregateGroupSettings
    → List AggregateSettlement
    → AggregateGroupPartition
    → AggregateGroupPartition × List AggregateSettlementResult
settle consumer_id epoch now_ms settings ss p =
    if not (epoch == p.epoch)
    then (p, replicate (length ss) stale_lease)
    else let (p', results) = settle_all consumer_id now_ms settings ss p in
      (release_unused_leases p', results)

-- `deadline_ms.max(…)` in the lease of the delivery's instance, if it has one
unfoldable pub renew_lease :
    Text → ℕ → BTreeMap Text AggregateInstanceLease → BTreeMap Text AggregateInstanceLease
renew_lease id deadline_ms leases = elim (get id leases) [
  | none ↦ leases
  | some l ↦ insert id (record l { deadline_ms = max l.deadline_ms deadline_ms }) leases
]

unfoldable pub renew_one :
    Text → ℕ → Uuid → AggregateGroupPartition → AggregateGroupPartition × AggregateSettlementResult
renew_one consumer_id deadline_ms id p = elim (get id p.deliveries) [
  | none ↦ (p, already_settled)
  | some d ↦ if not (d.consumer_id == consumer_id) then (p, wrong_consumer) else (
    record p {
      deliveries =
          insert id (record d { deadline_ms = max d.deadline_ms deadline_ms }) p.deliveries;
      leases = renew_lease d.aggregate_id deadline_ms p.leases;
    },
    applied,
  )
]

unfoldable pub renew_all :
    Text
    → ℕ
    → List Uuid
    → AggregateGroupPartition
    → AggregateGroupPartition × List AggregateSettlementResult
renew_all consumer_id deadline_ms [] p = (p, [])
renew_all consumer_id deadline_ms (id ∷ ids) p =
    let (p', result) = renew_one consumer_id deadline_ms id p in
    let (p'', results) = renew_all consumer_id deadline_ms ids p' in (p'', result ∷ results)

unfoldable pub renew :
    Text
    → ℕ
    → ℕ
    → List Uuid
    → AggregateGroupPartition
    → AggregateGroupPartition × List AggregateSettlementResult
renew consumer_id epoch deadline_ms ids p =
    if not (epoch == p.epoch)
    then (p, replicate (length ids) stale_lease)
    else renew_all consumer_id deadline_ms ids p
