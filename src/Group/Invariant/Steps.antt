-- ===== src/Group/Invariant/Steps.antt =====
-- The private steps of a partition and its invariant.
use eventfs.Prelude.{
  ℕ, ◌≤◌, ◌≡◌, refl, Text, some, true, ◌==◌, nat_ord, list_ord, eq_refl, Bool-cases, inl, inr, ltb,
  arith,
}
use eventfs.Prelude.Words.{u64_max, sat_add32}
use eventfs.BTreeMap.{BTreeMap, get, insert}
use eventfs.BTreeMap.Laws.{get-insert, get-remove, get-retain, any_value-true}
use eventfs.Group.{
  AggregateGroupSettings, AggregateGroupDelivery, AggregateGroupRetry, AggregateGroupParked,
  AggregateGroupPartition,
}
use eventfs.Group.Progress.{
  new, resolve, park_delivery, schedule_retry, retry_or_park, is_active, release_unused_leases,
  unsettle,
}
use eventfs.Group.Checkpoint.{resolve-IsCheckpoint, resolve-IsOpen}
use eventfs.Group.Invariant.{IsHeld, IsScheduled, IsValid, IsFree, IsLoose}

pub new-IsValid : (epoch position : ℕ) → position ≤ u64_max → IsValid (new epoch position)
unfolding new get
new-IsValid epoch position h = record {
  checkpoint = record { in_range = h; ahead = λ x e. ground arith };
  held = λ i d e. ground arith;
  scheduled = λ q r e. ground arith;
  one_delivery = λ i j d e h k s. ground arith;
  one_position = λ i j d e h k s. ground arith;
  one_retry = λ q t r s h k e. ground arith;
  exclusive = λ i q d r h k s. ground arith;
}

module _ (id : ℕ) (p : AggregateGroupPartition) (v : IsValid p) where
  pub unsettle-IsValid : IsValid (unsettle id p)
  unfolding unsettle
  unsettle-IsValid = record {
    checkpoint = record { in_range = v.checkpoint.in_range; ahead = v.checkpoint.ahead };
    held = λ i d h. ground (arith, get-remove i id p.deliveries, v.held i d);
    scheduled = λ q r h. ground (arith, v.scheduled q r);
    one_delivery = λ i j d e h k s.
        ground (
          arith,
          get-remove i id p.deliveries,
          get-remove j id p.deliveries,
          v.one_delivery i j d e,
        );
    one_position = λ i j d e h k s.
        ground (
          arith,
          get-remove i id p.deliveries,
          get-remove j id p.deliveries,
          v.one_position i j d e,
        );
    one_retry = v.one_retry;
    exclusive = λ i q d r h k s. ground (arith, get-remove i id p.deliveries, v.exclusive i q d r);
  }

  pub unsettle-IsLoose :
      (d : AggregateGroupDelivery) → get id p.deliveries ≡ some d → IsLoose (unsettle id p) d
  unfolding unsettle
  unsettle-IsLoose d h = record {
    free = record {
      undelivered =
          λ i e k s. ground (arith, get-remove i id p.deliveries, v.one_position i id e d);
      unscheduled = (v.held id d h).unscheduled;
    };
    alone = λ i e k s. ground (arith, get-remove i id p.deliveries, v.one_delivery i id e d);
    no_retry = λ q r k s. ground (arith, v.exclusive id q d r);
    unsettled = (v.held id d h).unsettled;
  }

-- `resolve` moves the checkpoint alone.
module _ (position : ℕ) (p : AggregateGroupPartition) where
  pub deliveries-resolve : (resolve position p).deliveries ≡ p.deliveries
  unfolding resolve
  deliveries-resolve = ground arith

  pub pending_retries-resolve : (resolve position p).pending_retries ≡ p.pending_retries
  unfolding resolve
  pending_retries-resolve = ground arith

  pub leases-resolve : (resolve position p).leases ≡ p.leases
  unfolding resolve
  leases-resolve = ground arith

  pub epoch-resolve : (resolve position p).epoch ≡ p.epoch
  unfolding resolve
  epoch-resolve = ground arith

  module _ (v : IsValid p) (f : IsFree p position) where
    IsHeld-resolve :
        (i : ℕ) (d : AggregateGroupDelivery)
        → get i (resolve position p).deliveries ≡ some d
        → IsHeld (resolve position p) i d
    IsHeld-resolve i d h =
        let k : get i p.deliveries ≡ some d = rw deliveries-resolve at h in
        let c = v.held i d k in
        record {
          keyed = c.keyed;
          current = rw epoch-resolve c.current;
          unsettled =
              resolve-IsOpen position p d.partition_position c.unsettled (f.undelivered i d k);
          unscheduled = rw pending_retries-resolve c.unscheduled;
          leased = rw leases-resolve c.leased;
        }

    IsScheduled-resolve :
        (q : ℕ) (r : AggregateGroupRetry)
        → get q (resolve position p).pending_retries ≡ some r
        → IsScheduled (resolve position p) q r
    IsScheduled-resolve q r h =
        let k : get q p.pending_retries ≡ some r = rw pending_retries-resolve at h in
        let c = v.scheduled q r k in
        record {
          keyed = c.keyed;
          unsettled = resolve-IsOpen position p q c.unsettled (λ e. ground (arith, f.unscheduled));
        }

    pub resolve-IsValid : IsValid (resolve position p)
    resolve-IsValid = record {
      checkpoint = resolve-IsCheckpoint position p v.checkpoint;
      held = IsHeld-resolve;
      scheduled = IsScheduled-resolve;
      one_delivery = rw deliveries-resolve v.one_delivery;
      one_position = rw deliveries-resolve v.one_position;
      one_retry = rw pending_retries-resolve v.one_retry;
      exclusive = rw (deliveries-resolve, pending_retries-resolve) v.exclusive;
    }

-- The parked events play no part in the invariant.
module _ (p : AggregateGroupPartition) (v : IsValid p) where
  IsValid-parked :
      (parked : BTreeMap ℕ AggregateGroupParked) → IsValid (record p { parked = parked })
  IsValid-parked parked = record {
    checkpoint = record { in_range = v.checkpoint.in_range; ahead = v.checkpoint.ahead };
    held = λ i d h. ground (arith, v.held i d);
    scheduled = λ q r h. ground (arith, v.scheduled q r);
    one_delivery = v.one_delivery;
    one_position = v.one_position;
    one_retry = v.one_retry;
    exclusive = v.exclusive;
  }

  is_active-delivery :
      (i : ℕ) (d : AggregateGroupDelivery)
      → get i p.deliveries ≡ some d
      → is_active p d.aggregate_id ≡ true
  unfolding is_active
  is_active-delivery i d h = ground (
    arith,
    any_value-true (λ e. e.aggregate_id == d.aggregate_id) p.deliveries i d,
    eq_refl d.aggregate_id,
  )

  pub release-IsValid : IsValid (release_unused_leases p)
  unfolding release_unused_leases
  release-IsValid = record {
    checkpoint = record { in_range = v.checkpoint.in_range; ahead = v.checkpoint.ahead };
    held = λ i d h. ground (
      arith,
      v.held i d,
      get-retain d.aggregate_id (is_active p) p.leases,
      is_active-delivery i d,
    );
    scheduled = λ q r h. ground (arith, v.scheduled q r);
    one_delivery = v.one_delivery;
    one_position = v.one_position;
    one_retry = v.one_retry;
    exclusive = v.exclusive;
  }

module _ (d : AggregateGroupDelivery) (p : AggregateGroupPartition) (v : IsValid p)
    (f : IsLoose p d) where
  pub park-IsValid : (reason : Text) (now_ms : ℕ) → IsValid (park_delivery d reason now_ms p)
  unfolding park_delivery
  park-IsValid reason now_ms =
      IsValid-parked (resolve d.partition_position p)
        (resolve-IsValid d.partition_position p v f.free) _

  module _ (r : AggregateGroupRetry) (same_instance : r.aggregate_id ≡ d.aggregate_id)
      (same_position : r.partition_position ≡ d.partition_position) where
    schedule-IsValid :
        IsValid (record p { pending_retries = insert d.partition_position r p.pending_retries })
    schedule-IsValid = record {
      checkpoint = record { in_range = v.checkpoint.in_range; ahead = v.checkpoint.ahead };
      held = λ i e h. ground (
        arith,
        v.held i e,
        get-insert e.partition_position d.partition_position r p.pending_retries,
        f.undelivered i e,
      );
      scheduled = λ q s h. ground (
        arith,
        v.scheduled q s,
        get-insert q d.partition_position r p.pending_retries,
        f.unsettled,
      );
      one_delivery = v.one_delivery;
      one_position = v.one_position;
      one_retry = λ q t s u h k e. ground (
        arith,
        v.one_retry q t s u,
        get-insert q d.partition_position r p.pending_retries,
        get-insert t d.partition_position r p.pending_retries,
        f.no_retry q s,
        f.no_retry t u,
      );
      exclusive = λ i q e s h k same. ground (
        arith,
        v.exclusive i q e s,
        get-insert q d.partition_position r p.pending_retries,
        f.alone i e,
      );
    }

  pub retry_or_park-IsValid :
      (reason : Text) (now_ms : ℕ) (settings : AggregateGroupSettings)
      → IsValid (retry_or_park d reason now_ms settings p)
  unfolding retry_or_park
  retry_or_park-IsValid reason now_ms settings =
      elim (Bool-cases (ltb settings.max_retries (sat_add32 d.attempt 1))) [
        | inl spent ↦ rw spent (park-IsValid reason now_ms)
        | inr left ↦ rw left (
            schedule-IsValid (schedule_retry d (sat_add32 d.attempt 1) now_ms settings)
              (unfold schedule_retry in refl) (unfold schedule_retry in refl))
      ]
