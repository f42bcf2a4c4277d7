-- ===== src/Tests/GroupCatalogs.antt =====
-- The catalog of consumer groups.
use eventfs.Prelude.{◌≡◌, refl, true, [], ◌∷◌, nat_ord, list_ord, pair_ord, arith}
use eventfs.Prelude.Ordered.{list_cmp}
use eventfs.BTreeMap.{get, insert, remove}
use eventfs.Identifier
use eventfs.Identifier.{
  contains, is_ascii_alphanumeric, is_identifier_byte, any_bad_byte, bad_first_byte,
  validate_aggregate_identifier, AggregateTypeId, type_id_ord, type_id_cmp,
}
use eventfs.Group.{AggregateGroupSettings}
use eventfs.Group.Settings
use eventfs.Group.Settings.{IsAccepted, validate-IsAccepted}
use eventfs.Catalog.{covers}
use eventfs.GroupCatalog.{
  now, AggregateGroupDefinition, validate_starts, validate, AggregateGroupCatalog, create, replace,
  delete, group, deleted, created, replaced, validate_key, run_create, run_replace, run_delete, run,
}
use eventfs.GroupCatalog.Laws.{run_same_revision, accepted_again}

abbrev order_type : AggregateTypeId
order_type = record { business_space = b's' ∷ []; aggregate_type = b'o' ∷ [] }

abbrev settings : AggregateGroupSettings
settings = record {
  max_unacked_per_consumer = 8;
  max_unacked_per_group = 32;
  ack_timeout_ms = 30000;
  max_retries = 5;
  retry_min_ms = 100;
  retry_max_ms = 60000;
}

abbrev billing : AggregateGroupDefinition
billing = record {
  aggregate_type = order_type;
  name = b'b' ∷ [];
  revision = 0;
  epoch = 0;
  start = now;
  partition_starts = (0, 4) ∷ [];
  settings = settings;
  create_operation_id = 21;
  last_operation_id = 21;
}

abbrev no_groups : AggregateGroupCatalog
no_groups = record { revision = 0; groups = []; deleted_operations = [] }

abbrev with_billing : AggregateGroupCatalog
with_billing = record {
  revision = 1;
  groups = ((order_type, b'b' ∷ []), created billing) ∷ [];
  deleted_operations = [];
}

billing_is_new : run (create billing 1) no_groups ≡ (with_billing, group (created billing))
unfolding run run_create validate validate_starts Settings.validate Identifier.validate covers
    validate_aggregate_identifier contains any_bad_byte bad_first_byte is_identifier_byte
    is_ascii_alphanumeric get insert remove list_cmp
billing_is_new = refl

abbrev new_billing : AggregateGroupDefinition
new_billing = record billing { last_operation_id = 22 }

abbrev with_new_billing : AggregateGroupCatalog
with_new_billing = record {
  revision = 2;
  groups = ((order_type, b'b' ∷ []), replaced (created billing) new_billing true) ∷ [];
  deleted_operations = [];
}

billing_is_reset :
    run (replace new_billing 1 1 true) with_billing
    ≡ (with_new_billing, group (replaced (created billing) new_billing true))
unfolding run run_replace validate validate_starts Settings.validate Identifier.validate covers
    validate_aggregate_identifier contains any_bad_byte bad_first_byte is_identifier_byte
    is_ascii_alphanumeric get insert remove list_cmp
billing_is_reset = refl

accepted_again_example :
    run (replace new_billing 1 1 true) with_new_billing
    ≡ (with_new_billing, group (replaced (created billing) new_billing true))
accepted_again_example =
    accepted_again (replace new_billing 1 1 true) with_billing with_new_billing
      (group (replaced (created billing) new_billing true)) refl billing_is_reset

abbrev with_deleted : AggregateGroupCatalog
with_deleted = record {
  revision = 2;
  groups = [];
  deleted_operations = ((order_type, b'b' ∷ []), 23) ∷ [];
}

billing_is_gone : run (delete order_type (b'b' ∷ []) 1 23) with_billing ≡ (with_deleted, deleted)
unfolding run run_delete validate_key Identifier.validate validate_aggregate_identifier contains
    any_bad_byte bad_first_byte is_identifier_byte is_ascii_alphanumeric get insert remove list_cmp
billing_is_gone = refl

-- A revision that is out of date.
stale_revision : (run (delete order_type (b'b' ∷ []) 9 23) with_billing).0.revision ≡ 1
unfolding run run_delete validate_key Identifier.validate validate_aggregate_identifier contains
    any_bad_byte bad_first_byte is_identifier_byte is_ascii_alphanumeric get list_cmp
stale_revision = refl

run_same_revision_example : (run (delete order_type (b'b' ∷ []) 9 23) with_billing).0 ≡ with_billing
run_same_revision_example =
    run_same_revision with_billing (omega arith) (delete order_type (b'b' ∷ []) 9 23) stale_revision
