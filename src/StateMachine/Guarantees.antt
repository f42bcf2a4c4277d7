-- ===== src/StateMachine/Guarantees.antt =====
-- Conditional writes and fences over several transactions.
use eventfs.Prelude.{
  ℕ, ◌+◌, ◌≤◌, ◌<◌, ◌≡◌, ◌≢◌, ◌⊎◌, refl, ap, max, Option, none, some, List, [], ◌∷◌, length, eq_iff,
  eq_refl, nat_ord, list_ord, pair_ord, true, ◌==◌, Option-cases, Bool-cases, Result-cases, inl,
  inr, arith,
}
use eventfs.Prelude.Words.{u64_max}
use eventfs.BTreeMap.{get}
use eventfs.BTreeMap.Laws.{get-insert}
use eventfs.Identifier.{AggregateTypeId, type_id_ord, validate_aggregate_identifier}
use eventfs.Identifier
use eventfs.Catalog.{Xxh3}
use eventfs.StateMachine.{
  ExpectedStateRevision, absent, exact, AggregateStateDocument, PartitionKey, Storage, write,
  PutStateRequest, EsRequest, aggregate_append, put_aggregate_state, install_partition_fence,
  commit_catalog, commit_group_catalog, group_partition, state_stored, fence_installed,
}
use eventfs.StateMachine.Batch.{read_fence, read_group_catalog}
use eventfs.StateMachine.Commands.{
  check_expected_revision, new_state, next_revision, new_document, document_of,
}
use eventfs.StateMachine.Apply
use eventfs.StateMachine.Apply.{Entry, Machine}
use eventfs.StateMachine.Reference
use eventfs.StateMachine.Reference.{append, put, install_fence, run_group, step, run_entries}
use eventfs.StateMachine.Refinement.Transactions.{Same, Same-trans, Same-sym}
use eventfs.StateMachine.Monotone.{revision_rank, fence-run_entries, revision-run_entries}
use eventfs.StateMachine.Sessions.{entry_of, between, session_lem}

-- The rank of the document that a condition asks for.
abbrev expected_rank : ExpectedStateRevision → ℕ
expected_rank absent = 0
expected_rank (exact n) = n + 1

expected_rank_lem :
    (e : ExpectedStateRevision) (c : Option _)
    → check_expected_revision e c ≡ true
    → revision_rank c ≡ expected_rank e
expected_rank_lem absent none h = refl
expected_rank_lem absent (some c) h = ground arith
expected_rank_lem (exact n) none h = ground arith
expected_rank_lem (exact n) (some c) h = ground (arith, eq_iff c.revision n)

compared_lem :
    (r : PutStateRequest) (d : AggregateStateDocument) (s : Storage)
    → (Reference.put_compared r s).1 ≡ state_stored d
    → (revision_rank (get (document_of r) s.states) ≡ expected_rank r.expected_revision)
      × (revision_rank (get (document_of r) s.states)
          < revision_rank (get (document_of r) (Reference.put_compared r s).0.states))
unfolding Reference.put_compared write
compared_lem r d s h =
    let current = get (document_of r) s.states in
    elim (Option-cases (next_revision current)) [
      | inl e ↦ (ground (arith, expected_rank_lem r.expected_revision current), ground arith)
      | inr (v, e) ↦ (
        ground (arith, expected_rank_lem r.expected_revision current),
        ground (
          arith,
          get-insert (document_of r) (document_of r) (new_state r v) s.states,
          eq_refl (document_of r),
        ),
      )
    ]

-- What is stored has passed its condition, and its revision is above it.
stored_lem :
    (r : PutStateRequest) (d : AggregateStateDocument) (s : Storage)
    → (put r s).1 ≡ state_stored d
    → (revision_rank (get (document_of r) s.states) ≡ expected_rank r.expected_revision)
      × (revision_rank (get (document_of r) s.states)
          < revision_rank (get (document_of r) (put r s).0.states))
unfolding put Reference.put_fenced
stored_lem r d s h = (ground (arith, compared_lem r d s), ground (arith, compared_lem r d s))

compared_or_idle :
    (r : PutStateRequest) (s : Storage)
    → ((d : AggregateStateDocument) × ((Reference.put_compared r s).1 ≡ state_stored d))
      ⊎ ((Reference.put_compared r s).0 ≡ s)
unfolding Reference.put_compared
compared_or_idle r s =
    let current = get (document_of r) s.states in
    elim (Bool-cases (check_expected_revision r.expected_revision current)) [
      | inr conflict ↦ inr (ground (arith, conflict))
      | inl expected ↦ elim (Option-cases (next_revision current)) [
        | inl exhausted ↦ inr (ground (arith, expected, exhausted))
        | inr (v, e) ↦ inl (new_document r v, ground (arith, expected, e))
      ]
    ]

-- A write is stored, and answered with its document, or it changes nothing.
put-cases :
    (r : PutStateRequest) (s : Storage)
    → ((d : AggregateStateDocument) × ((put r s).1 ≡ state_stored d)) ⊎ ((put r s).0 ≡ s)
unfolding put Reference.put_fenced
put-cases r s = elim (compared_or_idle r s) [
  | inr idle ↦ inr (ground (arith, idle))
  | inl (d, stored) ↦ elim (Result-cases (Identifier.validate r.aggregate_type)) [
    | inl (e, bad) ↦ inr (ground (arith, bad))
    | inr good ↦ elim (Result-cases (validate_aggregate_identifier r.aggregate_id)) [
      | inl (e, bad) ↦ inr (ground (arith, good, bad))
      | inr fine ↦
          let fence = read_fence s (r.aggregate_type, r.partition_id) in
          elim (Bool-cases (fence == r.partition_generation)) [
            | inr fenced ↦ inr (ground (arith, good, fine, fenced))
            | inl equal ↦ elim (Option-cases (get (document_of r) s.metas)) [
              | inl missing ↦ inr (ground (arith, good, fine, equal, missing))
              | inr (meta, found) ↦ inl (d, ground (arith, good, fine, equal, found, stored))
            ]
          ]
    ]
  ]
]

-- A document that was stored under a condition does not meet it again.
only_once :
    {LogId Membership : Type 0} (x : Xxh3) (r q : PutStateRequest) (d d' : AggregateStateDocument)
    (entries : List (Entry LogId Membership)) (s : Storage)
    → document_of q ≡ document_of r
    → q.expected_revision ≡ r.expected_revision
    → (put r s).1 ≡ state_stored d
    → (put q (run_entries x entries (put r s).0).0).1 ≢ state_stored d'
only_once x r q d d' entries s same_document same_condition first second =
    let s1 = (put r s).0 in
    let s2 = (run_entries x entries s1).0 in
    omega (
      arith,
      stored_lem r d s first,
      stored_lem q d' s2 second,
      revision-run_entries x entries s1 (document_of r),
      ap (λ k. revision_rank (get k s2.states)) same_document,
      ap expected_rank same_condition,
    )

-- The partition and the generation that a data request carries.
abbrev pub carried : EsRequest → Option (PartitionKey × ℕ)
carried (aggregate_append r) = some ((r.aggregate_type, r.partition_id), r.partition_generation)
carried (put_aggregate_state r) = some ((r.aggregate_type, r.partition_id), r.partition_generation)
carried (install_partition_fence t p g) = none
carried (commit_catalog command) = none
carried (commit_group_catalog command) = none
carried (group_partition r) = some ((r.aggregate_type, r.partition_id), r.partition_generation)

-- Below the fence a data request stores nothing.
below_fence :
    (x : Xxh3) (request : EsRequest) (k : PartitionKey) (g : ℕ) (s : Storage)
    → carried request ≡ some (k, g)
    → g < read_fence s k
    → (step x request s).0 ≡ s
unfolding step append Reference.append_validated put Reference.put_fenced run_group
    Reference.run_fenced
below_fence x (aggregate_append r) k g s h lt = ground arith
below_fence x (put_aggregate_state r) k g s h lt = ground arith
below_fence x (install_partition_fence t p n) k g s h lt = ground arith
below_fence x (commit_catalog command) k g s h lt = ground arith
below_fence x (commit_group_catalog command) k g s h lt = ground arith
below_fence x (group_partition r) k g s h lt = ground arith

-- An installed fence is the one that is read.
installed_lem :
    (t : AggregateTypeId) (p n g : ℕ) (s : Storage)
    → (install_fence t p n s).1 ≡ fence_installed g
    → read_fence (install_fence t p n s).0 (t, p) ≡ g
unfolding install_fence write
installed_lem t p n g s h =
    let key : PartitionKey = (t, p) in
    ground (arith, get-insert key key (max (read_fence s key) n) s.partition_fences, eq_refl key)

module _ {LogId Membership Stored : Type 0} (stored_membership : Option LogId → Membership → Stored)
    (x : Xxh3) (i j : LogId) (entries : List (Entry LogId Membership)) (m : Machine LogId Stored)
    (room : (read_group_catalog m.storage).revision + (length entries + 2) ≤ u64_max) where
  -- After a write of a document is answered as stored, a second write of that document with the same
  -- condition is not answered as stored and leaves the storage unchanged, whatever entries are between
  -- them, if the revision of the group catalog does not reach the last `u64` on the way.
  pub put_once :
      (r q : PutStateRequest) (d d' : AggregateStateDocument)
      → document_of q ≡ document_of r
      → q.expected_revision ≡ r.expected_revision
      → let m1 = (Apply.apply stored_membership x (entry_of i (put_aggregate_state r) ∷ []) m).0 in
        let m2 = (Apply.apply stored_membership x entries m1).0 in
        let m3 = (Apply.apply stored_membership x (entry_of j (put_aggregate_state q) ∷ []) m2) in
        (Apply.apply stored_membership x (entry_of i (put_aggregate_state r) ∷ []) m).1
          ≡ state_stored d ∷ []
        → Same m3.0.storage m2.storage × (m3.1 ≢ state_stored d' ∷ [])
  put_once r q d d' same_document same_condition first =
      let earlier = put_aggregate_state r in
      let later = put_aggregate_state q in
      let s0 = m.storage in
      let s2 = (run_entries x entries (put r s0).0).0 in
      let m2 = between stored_membership x earlier later i j entries m in
      let m3 = (Apply.apply stored_membership x (entry_of j later ∷ []) m2).0 in
      let (answer, same2, again, same3) =
        session_lem stored_membership x earlier later i j entries m room in
      unfold step in
      let accepted : (put r s0).1 ≡ state_stored d = ground (arith, answer, first) in
      let refused = λ (c : AggregateStateDocument).
        only_once x r q d c entries s0 same_document same_condition accepted in
      (
        elim (put-cases q s2) [
          | inl (c, stored) ↦ absurd (refused c stored)
          | inr idle ↦
              Same-trans m3.storage (put q s2).0 m2.storage same3
                (rw idle (Same-sym m2.storage s2 same2))
        ],
        λ second. refused d' (ground (arith, again, second)),
      )

  -- Once the fence of a partition is installed, a request that carries a lower generation stores
  -- nothing, whatever entries are between them, if the revision of the group catalog does not reach
  -- the last `u64` on the way.
  pub fenced_off :
      (t : AggregateTypeId) (p n g h : ℕ) (request : EsRequest)
      → carried request ≡ some ((t, p), h)
      → h < g
      → let m1 =
          (Apply.apply stored_membership x (entry_of i (install_partition_fence t p n) ∷ []) m).0 in
        let m2 = (Apply.apply stored_membership x entries m1).0 in
        (Apply.apply stored_membership x (entry_of i (install_partition_fence t p n) ∷ []) m).1
          ≡ fence_installed g ∷ []
        → Same (Apply.apply stored_membership x (entry_of j request ∷ []) m2).0.storage m2.storage
  fenced_off t p n g h request carries lower first =
      let fence = install_partition_fence t p n in
      let s0 = m.storage in
      let s1 = (install_fence t p n s0).0 in
      let s2 = (run_entries x entries s1).0 in
      let m2 = between stored_membership x fence request i j entries m in
      let m3 = (Apply.apply stored_membership x (entry_of j request ∷ []) m2).0 in
      let (answer, same2, again, same3) =
        session_lem stored_membership x fence request i j entries m room in
      unfold step in
      let accepted : (install_fence t p n s0).1 ≡ fence_installed g =
        ground (arith, answer, first) in
      let raised = fence-run_entries x entries s1 (t, p) in
      let idle =
        below_fence x request (t, p) h s2 carries
          (omega (arith, raised, installed_lem t p n g s0 accepted)) in
      Same-trans m3.storage (step x request s2).0 m2.storage same3
        (rw idle (Same-sym m2.storage s2 same2))
