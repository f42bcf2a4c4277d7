-- ===== src/StateMachine/Reads/Documents.antt =====
-- `read_aggregate_state_document` of es-storage/src/state_machine.rs.
use eventfs.Prelude.{
  ◌+◌, ◌≤◌, ◌≡◌, ap, ◌∙◌, Option, none, some, [], ◌∷◌, eq_refl, nat_ord, list_ord, pair_ord,
  Option-cases, inl, inr, arith,
}
use eventfs.Prelude.Words.{u64_max}
use eventfs.BTreeMap.{get}
use eventfs.BTreeMap.Laws.{get-insert}
use eventfs.Identifier.{type_id_ord}
use eventfs.Hlc.{Hlc}
use eventfs.Catalog.{Xxh3}
use eventfs.StateMachine.{
  AggregateStateDocument, InstanceKey, Storage, write, PutStateRequest, put_aggregate_state,
  state_stored,
}
use eventfs.StateMachine.Batch.{unwrap_or, read_group_catalog}
use eventfs.StateMachine.Commands.{next_revision, new_state, document_of}
use eventfs.StateMachine.Apply
use eventfs.StateMachine.Apply.{Machine}
use eventfs.StateMachine.Reference
use eventfs.StateMachine.Reference.{put, step}
use eventfs.StateMachine.Sessions.{entry_of, one_lem}

abbrev no_hlc : Hlc
no_hlc = record { wall = 0; logical = 0 }

unfoldable pub read_state_document : InstanceKey → Storage → Option AggregateStateDocument
read_state_document k s = elim (get k s.states) [
  | none ↦ none
  | some state ↦ some (record {
    revision = state.revision;
    data_bytes = state.data_bytes;
    modified_hlc = unwrap_or no_hlc (get k s.states_modified);
  })
]

compared_read :
    (r : PutStateRequest) (d : AggregateStateDocument) (s : Storage)
    → (Reference.put_compared r s).1 ≡ state_stored d
    → read_state_document (document_of r) (Reference.put_compared r s).0 ≡ some d
unfolding Reference.put_compared write read_state_document
compared_read r d s h = elim (Option-cases (next_revision (get (document_of r) s.states))) [
  | inl e ↦ ground arith
  | inr (v, e) ↦ ground (
    arith,
    get-insert (document_of r) (document_of r) (new_state r v) s.states,
    get-insert (document_of r) (document_of r) r.hlc s.states_modified,
    eq_refl (document_of r),
  )
]

put_read :
    (r : PutStateRequest) (d : AggregateStateDocument) (s : Storage)
    → (put r s).1 ≡ state_stored d
    → read_state_document (document_of r) (put r s).0 ≡ some d
unfolding put Reference.put_fenced
put_read r d s h = ground (arith, compared_read r d s)

-- A document that is answered as stored is read back as it was answered, if the revision of the group
-- catalog is below the last `u64`.
pub read_state_document-put :
    {LogId Membership Stored : Type 0} (stored_membership : Option LogId → Membership → Stored)
    → (x : Xxh3) (i : LogId) (r : PutStateRequest) (d : AggregateStateDocument)
      (m : Machine LogId Stored)
    → (read_group_catalog m.storage).revision + 1 ≤ u64_max
    → (Apply.apply stored_membership x (entry_of i (put_aggregate_state r) ∷ []) m).1
      ≡ state_stored d ∷ []
    → read_state_document
        (document_of r)
        (Apply.apply stored_membership x (entry_of i (put_aggregate_state r) ∷ []) m).0.storage
      ≡ some d
read_state_document-put stored_membership x i r d m room answered =
    let (answer, same) = one_lem stored_membership x (put_aggregate_state r) i m room in
    unfold step read_state_document in
    let accepted : (put r m.storage).1 ≡ state_stored d = ground (arith, answer, answered) in
    ap (read_state_document (document_of r)) same.tables ∙ put_read r d m.storage accepted
