-- ===== src/StateMachine/Once.antt =====
-- An append that is sent again.
use mathlib.Core.Path.{subst}
use eventfs.Prelude.{
  ℕ, ◌+◌, ◌≤◌, ◌≡◌, ap, ◌∙◌, Option, none, some, List, [], ◌∷◌, length, eq_iff, eq_refl, nat_ord,
  list_ord, pair_ord, Option-cases, inl, inr, arith,
}
use eventfs.Prelude.Words.{u64_max}
use eventfs.BTreeMap.{get}
use eventfs.BTreeMap.Laws.{get-insert}
use eventfs.Identifier.{type_id_ord}
use eventfs.Catalog.{Xxh3}
use eventfs.StateMachine.{
  AggregateIdempotencyRecord, NumberKey, Storage, write, write_all, AppendRequest, EsRequest,
  aggregate_append, put_aggregate_state, install_partition_fence, commit_catalog,
  commit_group_catalog, group_partition, append_ok,
}
use eventfs.StateMachine.Batch.{read_group_catalog, read_partition_head}
use eventfs.StateMachine.Append
use eventfs.StateMachine.Append.{
  identity_of, instance_of, next_version, fingerprint_of, idempotency_record,
}
use eventfs.StateMachine.Apply
use eventfs.StateMachine.Apply.{EntryPayload, blank, normal, membership, Entry, Machine}
use eventfs.StateMachine.Reference
use eventfs.StateMachine.Reference.{append, step, run_payload, run_entries}
use eventfs.StateMachine.Refinement.Transactions.{Same, Same-trans, Same-sym}
use eventfs.StateMachine.Sessions.{entry_of, between, session_lem}

module _ (x : Xxh3) (r : AppendRequest) where
  -- A record of a request whose identity was used before answers as it did.
  recorded_at :
      (version v p : ℕ) (m : Storage)
      → (Reference.append_at x r version m).1 ≡ append_ok v p
      → get (identity_of r) (Reference.append_at x r version m).0.idempotency
        ≡ some (idempotency_record x m r v p)
  unfolding Reference.append_at write write_all
  recorded_at version v p m h = ground (
    arith,
    get-insert (identity_of r) (identity_of r)
        (idempotency_record x m r version (read_partition_head m (Append.partition_of r)))
        m.idempotency,
    eq_refl (identity_of r),
  )

  -- The record of an append that went through.
  recorded_lem :
      (v p : ℕ) (m : Storage)
      → (append x r m).1 ≡ append_ok v p
      → get (identity_of r) (append x r m).0.idempotency ≡ some (idempotency_record x m r v p)
  unfolding append Reference.append_validated Reference.append_versioned
  recorded_lem v p m h = elim (Option-cases (next_version (get (instance_of r) m.metas))) [
    | inl e ↦ ground arith
    | inr (version, e) ↦ ground (arith, recorded_at version v p m)
  ]

  -- A request that went through once is valid, and is answered from its record.
  answered_lem :
      (v p : ℕ) (m n : Storage)
      → (append x r m).1 ≡ append_ok v p
      → get (identity_of r) n.idempotency ≡ some (idempotency_record x m r v p)
      → append x r n ≡ (n, append_ok v p)
  unfolding append Reference.append_validated
  answered_lem v p m n h e = ground arith

  kept_at :
      (version : ℕ) (k : NumberKey) (known : AggregateIdempotencyRecord) (m : Storage)
      → get (identity_of r) m.idempotency ≡ none
      → get k m.idempotency ≡ some known
      → get k (Reference.append_at x r version m).0.idempotency ≡ some known
  unfolding Reference.append_at write write_all
  kept_at version k known m new h = ground (
    arith,
    get-insert k (identity_of r)
        (idempotency_record x m r version (read_partition_head m (Append.partition_of r)))
        m.idempotency,
    eq_iff k (identity_of r),
  )

  kept_append :
      (k : NumberKey) (known : AggregateIdempotencyRecord) (m : Storage)
      → get k m.idempotency ≡ some known
      → get k (append x r m).0.idempotency ≡ some known
  unfolding append Reference.append_validated Reference.append_versioned
  kept_append k known m h = elim (Option-cases (next_version (get (instance_of r) m.metas))) [
    | inl e ↦ ground arith
    | inr (version, e) ↦ ground (arith, kept_at version k known m)
  ]

module _ (x : Xxh3) (k : NumberKey) (known : AggregateIdempotencyRecord) where
  -- No request changes a record.
  kept_step :
      (request : EsRequest) (m : Storage)
      → get k m.idempotency ≡ some known
      → get k (step x request m).0.idempotency ≡ some known
  unfolding step
  kept_step (aggregate_append r) m h = kept_append x r k known m h
  kept_step (put_aggregate_state r) m h =
      unfold Reference.put Reference.put_fenced Reference.put_compared write in ground arith
  kept_step (install_partition_fence t p g) m h =
      unfold Reference.install_fence write in ground arith
  kept_step (commit_catalog command) m h = unfold Reference.run_catalog write in ground arith
  kept_step (commit_group_catalog command) m h =
      unfold Reference.run_group_catalog write in ground arith
  kept_step (group_partition r) m h =
      unfold Reference.run_group Reference.run_fenced write in ground arith

  kept_payload :
      {Membership : Type 0} (p : EntryPayload Membership) (m : Storage)
      → get k m.idempotency ≡ some known
      → get k (run_payload x p m).0.idempotency ≡ some known
  unfolding run_payload
  kept_payload blank m h = h
  kept_payload (normal request) m h = kept_step request m h
  kept_payload (membership mem) m h = h

  kept_entries :
      {LogId Membership : Type 0} (entries : List (Entry LogId Membership)) (m : Storage)
      → get k m.idempotency ≡ some known
      → get k (run_entries x entries m).0.idempotency ≡ some known
  unfolding run_entries
  kept_entries [] m h = h
  kept_entries (entry ∷ entries) m h =
      kept_entries entries (run_payload x entry.payload m).0 (kept_payload entry.payload m h)

-- An append that went through is answered in the same way when it is sent again after any other
-- entries, and stores nothing the second time, if the revision of the group catalog does not reach
-- the last `u64` on the way.
pub append_once :
    {LogId Membership Stored : Type 0} (stored_membership : Option LogId → Membership → Stored)
    → (x : Xxh3) (r : AppendRequest) (i j : LogId) (v p : ℕ)
      (entries : List (Entry LogId Membership)) (m : Machine LogId Stored)
    → (read_group_catalog m.storage).revision + (length entries + 2) ≤ u64_max
    → (Apply.apply stored_membership x (entry_of i (aggregate_append r) ∷ []) m).1
      ≡ append_ok v p ∷ []
    → let m1 = (Apply.apply stored_membership x (entry_of i (aggregate_append r) ∷ []) m).0 in
      let m2 = (Apply.apply stored_membership x entries m1).0 in
      let again = Apply.apply stored_membership x (entry_of j (aggregate_append r) ∷ []) m2 in
      (again.1 ≡ append_ok v p ∷ []) × Same again.0.storage m2.storage
append_once stored_membership x r i j v p entries m h first =
    let request = aggregate_append r in
    let s0 = m.storage in
    let s1 = (append x r s0).0 in
    let s2 = (run_entries x entries s1).0 in
    let m2 = between stored_membership x request request i j entries m in
    let m3 = (Apply.apply stored_membership x (entry_of j request ∷ []) m2).0 in
    let (answer, same2, again, same3) =
      session_lem stored_membership x request request i j entries m h in
    unfold step in
    let accepted : (append x r s0).1 ≡ append_ok v p = ground (arith, answer, first) in
    let replay : append x r s2 ≡ (s2, append_ok v p) = answered_lem x r v p s0 s2 accepted (
      kept_entries x (identity_of r) (idempotency_record x s0 r v p) entries s1
        (recorded_lem x r v p s0 accepted)) in
    (
      again ∙ ap (λ z. z.1 ∷ []) replay,
      Same-trans m3.storage s2 m2.storage
          (subst (λ z. Same m3.storage z) (ap (λ z. z.0) replay) same3)
          (Same-sym m2.storage s2 same2),
    )
