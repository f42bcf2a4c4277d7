-- ===== src/StateMachine/Sessions.antt =====
-- Two requests in transactions of their own, with other transactions between them.
use mathlib.Core.Path.{subst}
use eventfs.Prelude.{◌+◌, ◌≤◌, ◌≡◌, refl, ap, ◌∙◌, Option, List, [], ◌∷◌, length, arith}
use eventfs.Prelude.Words.{u64_max}
use eventfs.Catalog.{Xxh3}
use eventfs.StateMachine.{Storage, EsRequest}
use eventfs.StateMachine.Batch.{read_group_catalog}
use eventfs.StateMachine.Apply
use eventfs.StateMachine.Apply.{normal, Entry, Machine}
use eventfs.StateMachine.Reference.{step, run_payload, run_entries}
use eventfs.StateMachine.Refinement.Transactions.{Same, Same-refl}
use eventfs.StateMachine.Refinement.Machine.{revision-run_entries, apply-run_entries}

abbrev pub entry_of : {LogId Membership : Type 0} → LogId → EsRequest → Entry LogId Membership
entry_of id request = record { log_id = id; payload = normal request }

run_one :
    {LogId : Type 0} (Membership : Type 0) (x : Xxh3) (i : LogId) (request : EsRequest)
    (s : Storage)
    → run_entries {Membership = Membership} x (entry_of i request ∷ []) s
      ≡ ((step x request s).0, (step x request s).1 ∷ [])
unfolding run_entries run_payload
run_one Membership x i request s = refl

-- A transaction of one request.
pub one_lem :
    {LogId Membership Stored : Type 0} (stored_membership : Option LogId → Membership → Stored)
    → (x : Xxh3) (request : EsRequest) (i : LogId) (m : Machine LogId Stored)
    → (read_group_catalog m.storage).revision + 1 ≤ u64_max
    → let done = Apply.apply stored_membership x (entry_of i request ∷ []) m in
      (done.1 ≡ (step x request m.storage).1 ∷ [])
      × Same done.0.storage (step x request m.storage).0
one_lem {Membership = Membership} stored_membership x request i m h =
    let (answer, same) =
      apply-run_entries stored_membership x (entry_of i request ∷ []) m m.storage h
        (Same-refl m.storage) in
    let one = run_one Membership x i request m.storage in
    (
      answer ∙ ap (λ z. z.1) one,
      subst (λ z. Same (Apply.apply stored_membership x (entry_of i request ∷ []) m).0.storage z.0)
          one same,
    )

module _ {LogId Membership Stored : Type 0} (stored_membership : Option LogId → Membership → Stored)
    (x : Xxh3) (first last : EsRequest) (i j : LogId) (entries : List (Entry LogId Membership))
    (m : Machine LogId Stored) where
  -- The machine and the specification between the two requests, and the machine at the end.
  abbrev pub between : Machine LogId Stored
  between =
      (Apply.apply stored_membership x entries
        (Apply.apply stored_membership x (entry_of i first ∷ []) m).0).0

  abbrev pub spec_between : Storage
  spec_between = (run_entries x entries (step x first m.storage).0).0

  pub session_lem :
      (read_group_catalog m.storage).revision + (length entries + 2) ≤ u64_max
      → ((Apply.apply stored_membership x (entry_of i first ∷ []) m).1
          ≡ (step x first m.storage).1 ∷ [])
        × Same between.storage spec_between
        × ((Apply.apply stored_membership x (entry_of j last ∷ []) between).1
            ≡ (step x last spec_between).1 ∷ [])
        × Same
            (Apply.apply stored_membership x (entry_of j last ∷ []) between).0.storage
            (step x last spec_between).0
  session_lem h =
      let apply = Apply.apply stored_membership x in
      let m1 = (apply (entry_of i first ∷ []) m).0 in
      let s1 =
        (run_entries {LogId = LogId} {Membership = Membership} x (entry_of i first ∷ [])
          m.storage).0 in
      let (answer, same1) =
        apply-run_entries stored_membership x (entry_of i first ∷ []) m m.storage (omega arith)
          (Same-refl m.storage) in
      let bound =
        revision-run_entries {LogId = LogId} {Membership = Membership} x (entry_of i first ∷ [])
          m.storage in
      let bound' = revision-run_entries x entries s1 in
      let (_, same2) = apply-run_entries stored_membership x entries m1 s1 (omega arith) same1 in
      let one = run_one Membership x i first m.storage in
      let two = run_one Membership x j last spec_between in
      let same2' : Same between.storage spec_between =
        subst (λ z. Same between.storage (run_entries x entries z.0).0) one same2 in
      let (again, same3) =
        apply-run_entries stored_membership x (entry_of j last ∷ []) between spec_between
          (omega (arith, ap (λ z. (read_group_catalog (run_entries x entries z.0).0).revision) one))
          same2' in
      (
        answer ∙ ap (λ z. z.1) one,
        same2',
        again ∙ ap (λ z. z.1) two,
        subst (λ z. Same (apply (entry_of j last ∷ []) between).0.storage z.0) two same3,
      )
