-- ===== src/StateMachine/Refinement/Append.antt =====
-- Appends on a batch and on the stored maps.
use eventfs.Prelude.{
  ℕ, ◌≡◌, refl, some, ◌++◌, ◌==◌, nat_ord, list_ord, pair_ord, Option-cases, Bool-cases, inl, inr,
  length, Result-cases, arith,
}
use eventfs.Prelude.Words.{checked_suc64}
use eventfs.BTreeMap.{get}
use eventfs.BTreeMap.Laws.{get-insert}
use eventfs.Identifier
use eventfs.Identifier.{type_id_ord, validate_aggregate_identifier}
use eventfs.Catalog.{Xxh3}
use eventfs.Append.{check_expected_aggregate_version}
use eventfs.StateMachine.{
  Storage, put_next_position, write, write_all, AppendRequest, EsResponse, ApplyBatch,
}
use eventfs.StateMachine.Batch.{
  read_fence, read_partition_head, batch_aggregate_version, batch_partition_position,
  batch_partition_fence, batch_idempotency,
}
use eventfs.StateMachine.Append
use eventfs.StateMachine.Append.{
  partition_of, instance_of, identity_of, next_version, idempotency_record, event_ops, append_event,
  append_fenced, apply_aggregate_append,
}
use eventfs.StateMachine.Reference
use eventfs.StateMachine.Reference.{Answer}
use eventfs.StateMachine.Tracking.{Tracks, version_lem, position_lem, fence_lem, idempotency_lem}
use eventfs.StateMachine.Writes.{is_plain, Written-append, Written-position}

-- The answers are the same, and the batch stands for the storage.
abbrev pub Agrees : Storage → ApplyBatch × EsResponse → Answer → Type 0
Agrees s p q = (p.1 ≡ q.1) × Tracks s p.0 q.0

module _ (x : Xxh3) (s : Storage) (r : AppendRequest) where
  Tracks-append_event :
      (version position next_position : ℕ) (b : ApplyBatch) (m : Storage)
      → Tracks s b m
      → Tracks s (append_event x s r version position next_position b) (
          write
            (put_next_position (partition_of r) next_position)
            (write_all (event_ops x s r version position) m))
  unfolding append_event write write_all is_plain
  Tracks-append_event version position next_position b m t = record {
    written =
        Written-position (partition_of r) next_position (b.ops ++ event_ops x s r version position)
          s (write_all (event_ops x s r version position) m)
          (Written-append (event_ops x s r version position) b.ops s m refl t.written);
    versions = λ j. ground (
      arith,
      get-insert j (instance_of r) (some version) b.aggregate_versions,
      get-insert j (instance_of r) version m.metas,
      t.versions j,
    );
    heads = λ j. ground (
      arith,
      get-insert j (partition_of r) next_position b.aggregate_partition_positions,
      get-insert j (partition_of r) next_position m.next_positions,
      t.heads j,
    );
    states = t.states;
    identities = λ j. ground (
      arith,
      get-insert j (identity_of r) (idempotency_record x s r version position)
          b.aggregate_idempotency,
      get-insert j (identity_of r) (idempotency_record x s r version position) m.idempotency,
      t.identities j,
    );
    fences = t.fences;
    catalog = t.catalog;
    group_catalog = t.group_catalog;
    groups = t.groups;
  }

  Agrees-append_at :
      (version : ℕ) (b : ApplyBatch) (m : Storage)
      → Tracks s b m
      → Agrees s (Append.append_at x s r version b) (Reference.append_at x r version m)
  unfolding Append.append_at Reference.append_at
  Agrees-append_at version b m t =
      let (read, t') = position_lem s (partition_of r) b m t in
      let b' = (batch_partition_position s (partition_of r) b).0 in
      elim (Option-cases (checked_suc64 (read_partition_head m (partition_of r)))) [
        | inl e ↦ rw (read, e, Append.append_at, Reference.append_at) (refl, t')
        | inr (n, e) ↦
            rw (read, e, Append.append_at, Reference.append_at, read)
              (refl, Tracks-append_event version (read_partition_head m (partition_of r)) n b' m t')
      ]

  Agrees-append_versioned :
      (b : ApplyBatch) (m : Storage)
      → Tracks s b m
      → Agrees s (Append.append_versioned x s r b) (Reference.append_versioned x r m)
  unfolding Append.append_versioned Reference.append_versioned
  Agrees-append_versioned b m t =
      let (read, t') = version_lem s (instance_of r) b m t in
      let current = get (instance_of r) m.metas in
      let b' = (batch_aggregate_version s (instance_of r) b).0 in
      elim (Bool-cases (check_expected_aggregate_version r.expected_version current)) [
        | inr conflict ↦ rw (read, conflict) (refl, t')
        | inl expected ↦ elim (Option-cases (next_version current)) [
          | inl e ↦
              rw (read, expected, e, Append.append_versioned, Reference.append_versioned) (refl, t')
          | inr (v, e) ↦
              rw (read, expected, e, Append.append_versioned, Reference.append_versioned)
                (Agrees-append_at v b' m t')
        ]
      ]

  Agrees-append_validated :
      (b : ApplyBatch) (m : Storage)
      → Tracks s b m
      → Agrees s (Append.append_validated x s r b) (Reference.append_validated x r m)
  unfolding Append.append_validated Reference.append_validated append_fenced
  Agrees-append_validated b m t =
      let (read, t1) = idempotency_lem s (identity_of r) b m t in
      let b1 = (batch_idempotency s (identity_of r) b).0 in
      elim (Option-cases (get (identity_of r) m.idempotency)) [
        | inr (v, e) ↦ rw (read, e, Append.append_validated, Reference.append_validated) (refl, t1)
        | inl e ↦
            let (fence, t2) = fence_lem s (partition_of r) b1 m t1 in
            let b2 = (batch_partition_fence s (partition_of r) b1).0 in
            rw (read, e, Append.append_validated, Reference.append_validated, fence)
              (elim (Bool-cases (read_fence m (partition_of r) == r.partition_generation)) [
                | inl same ↦ rw same (Agrees-append_versioned b2 m t2)
                | inr other ↦ rw other (refl, t2)
              ])
      ]

  pub Agrees-append :
      (b : ApplyBatch) (m : Storage)
      → Tracks s b m
      → Agrees s (apply_aggregate_append x s r b) (Reference.append x r m)
  unfolding apply_aggregate_append Reference.append
  Agrees-append b m t = elim (Result-cases (Identifier.validate r.aggregate_type)) [
    | inl (e, h) ↦ rw (h, apply_aggregate_append, Reference.append) (refl, t)
    | inr h ↦
        rw (h, apply_aggregate_append, Reference.append)
          (elim (Result-cases (validate_aggregate_identifier r.aggregate_id)) [
            | inl (e, k) ↦ rw (k, apply_aggregate_append, Reference.append) (refl, t)
            | inr k ↦
                rw (k, apply_aggregate_append, Reference.append)
                  (elim (Bool-cases (length r.event.event_type == 0)) [
                    | inl empty ↦ rw empty (refl, t)
                    | inr named ↦ rw named (Agrees-append_validated b m t)
                  ])
          ])
  ]
