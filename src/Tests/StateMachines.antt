-- ===== src/Tests/StateMachines.antt =====
-- The state machine.
use eventfs.Prelude.{
  get_elem?, ok, ℕ, ◌≡◌, ◌≢◌, refl, none, some, List, [], ◌∷◌, Option, length, nat_ord, list_ord,
  pair_ord, arith,
}
use eventfs.Prelude.Ordered.{list_cmp}
use eventfs.BTreeMap.{get, insert}
use eventfs.BTreeMap.Laws.{IsUnique}
use eventfs.StateMachine.Reads.{up_to_limit, read_partition_events, read_partition_events_lem}
use eventfs.StateMachine.Reads.Documents.{read_state_document, read_state_document-put}
use eventfs.StateMachine.Commands.{document_of}
use eventfs.Identifier
use eventfs.Identifier.{
  contains, is_ascii_alphanumeric, is_identifier_byte, any_bad_byte, bad_first_byte,
  validate_aggregate_identifier, AggregateTypeId, type_id_ord, type_id_cmp,
}
use eventfs.Hlc.{Hlc}
use eventfs.Catalog.{Xxh3}
use eventfs.Append.{no_aggregate, check_expected_aggregate_version}
use eventfs.StateMachine.{
  AggregateEvent, EventKey, absent, AggregateStateDocument, Storage, write, write_all,
  AppendRequest, PutStateRequest, aggregate_append, put_aggregate_state, install_partition_fence,
  append_ok, state_stored, fence_installed,
}
use eventfs.StateMachine.Batch.{
  read_group_catalog, read_partition_head, batch_idempotency, batch_partition_fence,
  batch_aggregate_version, batch_partition_position, batch_aggregate_state,
}
use eventfs.StateMachine.Append.{
  stored_event, apply_aggregate_append, append_validated, append_fenced, append_versioned,
  append_at, append_event,
}
use eventfs.StateMachine.Commands.{
  apply_put_aggregate_state, put_fenced, put_existing, put_compared, store_state,
  apply_partition_fence, raise_fence,
}
use eventfs.StateMachine.Apply
use eventfs.StateMachine.Apply.{
  Entry, Machine, transaction, apply_entries, apply_entry, apply_request, position_ops,
}
use eventfs.StateMachine.Reference.{run_entries}
use eventfs.StateMachine.Refinement.Transactions.{Same, Same-refl}
use eventfs.StateMachine.Refinement.Machine.{apply-run_entries}
use eventfs.StateMachine.Sessions.{entry_of}
use eventfs.StateMachine.Once.{append_once}
use eventfs.StateMachine.Guarantees.{put_once, fenced_off}
use eventfs.StateMachine.Consistency.{IsConsistent}
use eventfs.StateMachine.Consistency.Steps.{apply-IsConsistent}
use eventfs.StateMachine.Consistency.History.{apply-keeps_events}
use eventfs.StateMachine.Health.{IsHealthy, IsRequest, IsPayload, IsLog, apply-IsHealthy}

abbrev order_type : AggregateTypeId
order_type = record { business_space = b's' ∷ []; aggregate_type = b'o' ∷ [] }

-- A hash that counts.
abbrev counting : Xxh3
counting = record { digest = length; digest128 = length }

abbrev stored_at : Option ℕ → ℕ → Option ℕ × ℕ
stored_at log_id mem = (log_id, mem)

abbrev at_noon : Hlc
at_noon = record { wall = 720; logical = 0 }

abbrev first_order : AppendRequest
first_order = record {
  aggregate_type = order_type;
  partition_id = 3;
  partition_generation = 0;
  aggregate_id = b'a' ∷ [];
  expected_version = no_aggregate;
  event = record { event_id = 80; event_type = b'p' ∷ []; data_bytes = 1 ∷ []; metadata = [] };
  hlc = at_noon;
}

abbrev document : PutStateRequest
document = record {
  aggregate_type = order_type;
  partition_id = 3;
  partition_generation = 0;
  aggregate_id = b'a' ∷ [];
  expected_revision = absent;
  data_bytes = 7 ∷ [];
  hlc = at_noon;
}

abbrev log : List (Entry ℕ ℕ)
log =
    entry_of 1 (aggregate_append first_order)
    ∷ entry_of 2 (put_aggregate_state document)
    ∷ entry_of 3 (install_partition_fence order_type 3 2)
    ∷ []

abbrev empty_storage : Storage
empty_storage = record {
  events = [];
  metas = [];
  partition_index = [];
  next_positions = [];
  states = [];
  states_modified = [];
  idempotency = [];
  partition_fences = [];
  catalog = none;
  group_catalog = none;
  group_partitions = [];
}

abbrev empty_machine : Machine ℕ (Option ℕ × ℕ)
empty_machine = record {
  storage = empty_storage;
  applied = none;
  sm_cache = record { last_applied = none; membership = (none, 0) };
  broadcast = [];
}

apply-run_entries_example :
    ((Apply.apply stored_at counting log empty_machine).1
      ≡ (run_entries counting log empty_storage).1)
    × Same
        (Apply.apply stored_at counting log empty_machine).0.storage
        (run_entries counting log empty_storage).0
apply-run_entries_example =
    apply-run_entries stored_at counting log empty_machine empty_storage (omega arith)
      (Same-refl empty_storage)

-- The answers of single transactions.
first_order_appended :
    (Apply.apply stored_at counting
      (entry_of 1 (aggregate_append first_order) ∷ [])
      empty_machine).1
    ≡ append_ok 0 0 ∷ []
unfolding Apply.apply apply_entries apply_entry apply_request apply_aggregate_append
    append_validated append_fenced append_versioned append_at batch_idempotency
    batch_partition_fence batch_aggregate_version batch_partition_position
    check_expected_aggregate_version Identifier.validate validate_aggregate_identifier contains
    any_bad_byte bad_first_byte is_identifier_byte is_ascii_alphanumeric get insert list_cmp
first_order_appended = refl

append_once_example :
    let m1 =
      (Apply.apply stored_at counting
        (entry_of 1 (aggregate_append first_order) ∷ [])
        empty_machine).0 in
    let m2 = (Apply.apply stored_at counting log m1).0 in
    let again =
      Apply.apply stored_at counting (entry_of 9 (aggregate_append first_order) ∷ []) m2 in
    (again.1 ≡ append_ok 0 0 ∷ []) × Same again.0.storage m2.storage
append_once_example =
    append_once stored_at counting first_order 1 9 0 0 log empty_machine (omega arith)
      first_order_appended

abbrev one_order : Machine ℕ (Option ℕ × ℕ)
one_order = record empty_machine {
  storage = record empty_storage { metas = ((order_type, (3, b'a' ∷ [])), 0) ∷ [] };
}

abbrev first_document : AggregateStateDocument
first_document = record { revision = 0; data_bytes = 7 ∷ []; modified_hlc = at_noon }

document_stored :
    (Apply.apply stored_at counting (entry_of 1 (put_aggregate_state document) ∷ []) one_order).1
    ≡ state_stored first_document ∷ []
unfolding Apply.apply apply_entries apply_entry apply_request apply_put_aggregate_state put_fenced
    put_existing put_compared batch_partition_fence batch_aggregate_version batch_aggregate_state
    Identifier.validate validate_aggregate_identifier contains any_bad_byte bad_first_byte
    is_identifier_byte is_ascii_alphanumeric get insert list_cmp
document_stored = refl

put_once_example :
    let m2 =
      (Apply.apply stored_at counting log
        (Apply.apply stored_at counting
          (entry_of 1 (put_aggregate_state document) ∷ [])
          one_order).0).0 in
    let m3 = Apply.apply stored_at counting (entry_of 9 (put_aggregate_state document) ∷ []) m2 in
    Same m3.0.storage m2.storage × (m3.1 ≢ state_stored first_document ∷ [])
put_once_example =
    put_once stored_at counting 1 9 log one_order (omega arith) document document first_document
      first_document refl refl document_stored

fence_is_installed :
    (Apply.apply stored_at counting
      (entry_of 1 (install_partition_fence order_type 3 2) ∷ [])
      empty_machine).1
    ≡ fence_installed 2 ∷ []
unfolding Apply.apply apply_entries apply_entry apply_request apply_partition_fence
    batch_partition_fence Identifier.validate validate_aggregate_identifier contains any_bad_byte
    bad_first_byte is_identifier_byte is_ascii_alphanumeric get insert list_cmp
fence_is_installed = refl

fenced_off_example :
    let m1 =
      (Apply.apply stored_at counting
        (entry_of 1 (install_partition_fence order_type 3 2) ∷ [])
        empty_machine).0 in
    let m2 = (Apply.apply stored_at counting log m1).0 in
    Same
      (Apply.apply stored_at counting (entry_of 9 (aggregate_append first_order) ∷ []) m2).0.storage
      m2.storage
fenced_off_example =
    fenced_off stored_at counting 1 9 log empty_machine (omega arith) order_type 3 2 2 0
      (aggregate_append first_order) refl (omega arith) fence_is_installed

empty-IsConsistent : IsConsistent empty_storage
unfolding get
empty-IsConsistent = record {
  placed = λ k a v e h. ground arith;
  pointed = λ k n a v h. ground arith;
  full = λ k n h. ground arith;
  bounded = λ k v e h. ground arith;
  versioned = λ k c v h le. ground arith;
}

apply-IsConsistent_example :
    IsConsistent (Apply.apply stored_at counting log empty_machine).0.storage
apply-IsConsistent_example =
    apply-IsConsistent stored_at counting log empty_machine (omega arith) empty-IsConsistent

abbrev order_key : EventKey
order_key = ((order_type, (3, b'a' ∷ [])), 0)

abbrev order_event : AggregateEvent
order_event = stored_event first_order 0 0

-- The machine after its first transaction.
abbrev second_machine : Machine ℕ (Option ℕ × ℕ)
second_machine = (Apply.apply stored_at counting log empty_machine).0

second_lem :
    (get order_key second_machine.storage.events ≡ some order_event)
    × ((read_group_catalog second_machine.storage).revision ≡ 0)
    × (read_partition_head second_machine.storage (order_type, 3) ≡ 1)
    × IsUnique second_machine.storage.partition_index
unfolding Apply.apply transaction apply_entries apply_entry apply_request apply_aggregate_append
    append_validated append_fenced append_versioned append_at append_event batch_idempotency
    batch_partition_fence batch_aggregate_version batch_partition_position apply_put_aggregate_state
    put_fenced put_existing put_compared store_state batch_aggregate_state apply_partition_fence
    raise_fence position_ops write write_all IsUnique check_expected_aggregate_version
    Identifier.validate validate_aggregate_identifier contains any_bad_byte bad_first_byte
    is_identifier_byte is_ascii_alphanumeric get insert list_cmp
second_lem = (refl, refl, refl, (refl, tt))

apply-keeps_events_example :
    get order_key (Apply.apply stored_at counting log second_machine).0.storage.events
    ≡ some order_event
apply-keeps_events_example =
    apply-keeps_events stored_at counting log second_machine (omega (arith, second_lem.1))
      (apply-IsConsistent stored_at counting log empty_machine (omega arith) empty-IsConsistent)
      order_key order_event second_lem.0

empty-IsHealthy : IsHealthy empty_storage
unfolding get
empty-IsHealthy = record {
  well_formed = record { sound = λ i d h. ground arith };
  reachable = λ k p h. ground arith;
}

log-IsLog : IsLog log
unfolding IsLog IsPayload IsRequest
log-IsLog = (tt, (tt, (tt, tt)))

apply-IsHealthy_example : IsHealthy (Apply.apply stored_at counting log empty_machine).0.storage
apply-IsHealthy_example =
    apply-IsHealthy stored_at counting log empty_machine (omega arith) log-IsLog empty-IsHealthy

read_partition_events_lem_example :
    let s = second_machine.storage in
    (events : List AggregateEvent) × (read_partition_events s (order_type, 3) 0 0 ≡ ok events)
    × (read_partition_events s (order_type, 3) 0 5 ≡ ok (up_to_limit 5 events))
    × (i : ℕ) × (e : AggregateEvent) × (get_elem? events i ≡ some e)
    × (e.partition_position ≡ 0)
read_partition_events_lem_example =
    read_partition_events_lem second_machine.storage (order_type, 3) 0 5 0
      (apply-IsConsistent stored_at counting log empty_machine (omega arith) empty-IsConsistent)
      second_lem.3 (omega arith) (omega (arith, second_lem.2))

read_state_document-put_example :
    read_state_document
      (document_of document)
      (Apply.apply stored_at counting
        (entry_of 1 (put_aggregate_state document) ∷ [])
        one_order).0.storage
    ≡ some first_document
read_state_document-put_example =
    read_state_document-put stored_at counting 1 document first_document one_order (omega arith)
      document_stored
