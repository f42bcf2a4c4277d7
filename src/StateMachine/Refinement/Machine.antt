-- ===== src/StateMachine/Refinement/Machine.antt =====
-- `apply` against the specification, and transactions that are cut in another way.
use mathlib.Core.Path.{subst}
use eventfs.Prelude.{
  ◌+◌, ◌≤◌, ◌≡◌, refl, sym, ap, Option, List, [], ◌∷◌, ◌++◌, length, length-append, arith,
}
use eventfs.Prelude.Words.{u64_max}
use eventfs.Catalog.{Xxh3}
use eventfs.StateMachine.{Storage}
use eventfs.StateMachine.Batch.{read_group_catalog}
use eventfs.StateMachine.Apply
use eventfs.StateMachine.Apply.{Entry, Machine, apply_entries, start_run}
use eventfs.StateMachine.Reference.{run_payload, run_entries}
use eventfs.StateMachine.Refinement.Transactions.{
  Same, Same-refl, Same-trans, Same-sym, Tracks-empty, Same-transaction, revision-run_payload,
  Tracks-apply_entries,
}

module _ {LogId Membership : Type 0} (x : Xxh3) where
  pub run_entries-append :
      (a b : List (Entry LogId Membership)) (m : Storage)
      → (run_entries x (a ++ b) m).0 ≡ (run_entries x b (run_entries x a m).0).0
  unfolding run_entries
  run_entries-append [] b m = refl
  run_entries-append (entry ∷ a) b m = run_entries-append a b (run_payload x entry.payload m).0

  answers-append :
      (a b : List (Entry LogId Membership)) (m : Storage)
      → (run_entries x (a ++ b) m).1
        ≡ (run_entries x a m).1 ++ (run_entries x b (run_entries x a m).0).1
  unfolding run_entries
  answers-append [] b m = refl
  answers-append (entry ∷ a) b m =
      ap (λ l. (run_payload x entry.payload m).1 ∷ l)
        (answers-append a b (run_payload x entry.payload m).0)

  pub revision-run_entries :
      (a : List (Entry LogId Membership)) (m : Storage)
      → (read_group_catalog (run_entries x a m).0).revision
        ≤ (read_group_catalog m).revision + length a
  unfolding run_entries
  revision-run_entries [] m = omega arith
  revision-run_entries (entry ∷ a) m = omega (
    arith,
    revision-run_payload x entry.payload m,
    revision-run_entries a (run_payload x entry.payload m).0,
  )

module _ {LogId Membership Stored : Type 0} (stored_membership : Option LogId → Membership → Stored)
    (x : Xxh3) where
  -- One transaction of many entries answers what the entries answer one by one, and stores what they
  -- store, if the revision of the group catalog does not reach the last `u64` on the way.
  pub apply-run_entries :
      (entries : List (Entry LogId Membership)) (m : Machine LogId Stored) (spec : Storage)
      → (read_group_catalog spec).revision + length entries ≤ u64_max
      → Same m.storage spec
      → ((Apply.apply stored_membership x entries m).1 ≡ (run_entries x entries spec).1)
        × Same (Apply.apply stored_membership x entries m).0.storage (run_entries x entries spec).0
  unfolding Apply.apply
  apply-run_entries entries m spec h same =
      let run = apply_entries stored_membership x m.storage entries start_run in
      let (t, answers) =
        Tracks-apply_entries stored_membership x m.storage entries start_run spec h
          (Tracks-empty m.storage spec same) in
      (answers, Same-transaction m.storage run.batch (run_entries x entries spec).0 t)

  -- Two transactions answer and store what one transaction of all their entries does, if the revision
  -- of the group catalog does not reach the last `u64` on the way.
  pub apply-append :
      (a b : List (Entry LogId Membership)) (m : Machine LogId Stored)
      → (read_group_catalog m.storage).revision + length (a ++ b) ≤ u64_max
      → ((Apply.apply stored_membership x (a ++ b) m).1
          ≡ (Apply.apply stored_membership x a m).1
            ++ (Apply.apply stored_membership x b (Apply.apply stored_membership x a m).0).1)
        × Same
            (Apply.apply stored_membership x (a ++ b) m).0.storage
            (Apply.apply stored_membership x b (Apply.apply stored_membership x a m).0).0.storage
  apply-append a b m h =
      let spec = (run_entries x a m.storage).0 in
      let lengths = length-append a b in
      let (answers, same) = apply-run_entries (a ++ b) m m.storage h (Same-refl m.storage) in
      let (first, same_a) = apply-run_entries a m m.storage (omega arith) (Same-refl m.storage) in
      let (second, same_b) =
        apply-run_entries b (Apply.apply stored_membership x a m).0 spec
          (omega (arith, revision-run_entries x a m.storage)) same_a in
      (
        ground (arith, answers, answers-append x a b m.storage, first, second),
        Same-trans _ (run_entries x (a ++ b) m.storage).0 _ same (
            subst
              (λ z.
                Same z
                  (Apply.apply stored_membership x b
                    (Apply.apply stored_membership x a m).0).0.storage)
              (sym (run_entries-append x a b m.storage)) (Same-sym _ _ same_b)),
      )
