-- ===== src/Group/Settlement/Expiry.antt =====
-- What deliveries `expire` leaves.
use eventfs.Prelude.{
  ℕ, ◌≤◌, ◌<◌, ◌≡◌, ◌∙◌, ap, refl, Bool, true, false, ◌||◌, none, some, List, [], ◌∷◌, Text, ◌==◌,
  nat_ord, eq_iff, Option-cases, inl, inr, arith, if◌then◌else◌,
}
use eventfs.BTreeMap.{BTreeMap, get}
use eventfs.BTreeMap.Laws.{get-remove}
use eventfs.Group.{AggregateGroupSettings, Uuid, AggregateGroupDelivery, AggregateGroupPartition}
use eventfs.Group.Progress.{park_delivery, retry_or_park, release_unused_leases, unsettle}
use eventfs.Group.Settlement.{ack_timeout, expired_ids, expire_one, expire_all, expire}
use eventfs.Group.Invariant.Steps.{deliveries-resolve}

abbrev has_id : Uuid → List Uuid → Bool
has_id i [] = false
has_id i (j ∷ ids) = i == j || has_id i ids

has_id-expired_ids :
    (now_ms i : ℕ) (d : AggregateGroupDelivery) (m : BTreeMap Uuid AggregateGroupDelivery)
    → get i m ≡ some d
    → d.deadline_ms ≤ now_ms
    → has_id i (expired_ids now_ms m) ≡ true
unfolding get expired_ids
has_id-expired_ids now_ms i d [] h late = ground arith
has_id-expired_ids now_ms i d ((j, e) ∷ m) h late =
    ground (arith, has_id-expired_ids now_ms i d m, eq_iff i j)

deliveries-retry_or_park :
    (d : AggregateGroupDelivery) (reason : Text) (now_ms : ℕ) (settings : AggregateGroupSettings)
    → (p : AggregateGroupPartition)
    → (retry_or_park d reason now_ms settings p).deliveries ≡ p.deliveries
unfolding retry_or_park park_delivery
deliveries-retry_or_park d reason now_ms settings p =
    ground (arith, deliveries-resolve d.partition_position p)

module _ (now_ms : ℕ) (settings : AggregateGroupSettings) (j : Uuid) where
  get-expire_one :
      (i : Uuid) (p : AggregateGroupPartition)
      → get j (expire_one now_ms settings i p).deliveries
        ≡ (if j == i then none else get j p.deliveries)
  unfolding expire_one
  get-expire_one i p = elim (Option-cases (get i p.deliveries)) [
    | inl missing ↦ rw (missing, expire_one) (ground (arith, eq_iff j i))
    | inr (d, found) ↦
        rw (found, expire_one)
          (ap (get j) (deliveries-retry_or_park d ack_timeout now_ms settings (unsettle i p))
            ∙ (unfold unsettle in get-remove j i p.deliveries))
  ]

  get-expire_all :
      (ids : List Uuid) (p : AggregateGroupPartition)
      → get j (expire_all now_ms settings ids p).deliveries
        ≡ (if has_id j ids then none else get j p.deliveries)
  unfolding expire_all
  get-expire_all [] p = refl
  get-expire_all (i ∷ ids) p =
      ground (arith, get-expire_all ids (expire_one now_ms settings i p), get-expire_one i p)

  -- A delivery that is left by `expire` was there before, and its deadline has not passed.
  pub get-expire :
      (p : AggregateGroupPartition) (d : AggregateGroupDelivery)
      → get j (expire now_ms settings p).0.deliveries ≡ some d
      → (get j p.deliveries ≡ some d) × (now_ms < d.deadline_ms)
  unfolding expire release_unused_leases
  get-expire p d h = ground (
    arith,
    get-expire_all (expired_ids now_ms p.deliveries) p,
    has_id-expired_ids now_ms j d p.deliveries,
  )
