-- ===== src/Append.antt =====
-- es-core/src/aggregate.rs: the request to append an event, and its fingerprint.
pub mod Laws
use eventfs.Prelude.{
  Bool, true, false, Option, none, some, ◌==◌, nat_ord, ℕ, List, [], ◌∷◌, ◌++◌, Text,
}
use eventfs.Bytes.{Bytes, to_be_bytes, len_prefixed}
use eventfs.Identifier.{AggregateTypeId}
use eventfs.Group.{Uuid}
use eventfs.Catalog.{Xxh3}

pub record NewAggregateEvent : Type 0 where
  pub event_id : Uuid
  pub event_type : Text
  pub data_bytes : Bytes
  pub metadata : Bytes

pub data ExpectedAggregateVersion : Type 0 where
  any no_aggregate aggregate_exists : ExpectedAggregateVersion
  exact : ℕ → ExpectedAggregateVersion

unfoldable pub expected_bytes : ExpectedAggregateVersion → Bytes
expected_bytes any = 0 ∷ []
expected_bytes no_aggregate = 1 ∷ []
expected_bytes aggregate_exists = 2 ∷ []
expected_bytes (exact version) = 3 ∷ to_be_bytes 8 version

unfoldable pub event_bytes : NewAggregateEvent → Bytes
event_bytes e =
    to_be_bytes 16 e.event_id
    ++ (len_prefixed e.event_type ++ (len_prefixed e.data_bytes ++ len_prefixed e.metadata))

-- What the hasher of `aggregate_append_fingerprint` is updated with.
unfoldable pub append_bytes :
    AggregateTypeId → Text → ExpectedAggregateVersion → NewAggregateEvent → Bytes
unfolding expected_bytes event_bytes
append_bytes t aggregate_id expected e =
    len_prefixed t.business_space
    ++ (len_prefixed t.aggregate_type
        ++ (len_prefixed aggregate_id ++ (expected_bytes expected ++ event_bytes e)))

unfoldable pub aggregate_append_fingerprint :
    Xxh3 → AggregateTypeId → Text → ExpectedAggregateVersion → NewAggregateEvent → ℕ
unfolding append_bytes
aggregate_append_fingerprint x t aggregate_id expected e =
    x.digest128 (append_bytes t aggregate_id expected e)

-- es-storage/src/state_machine.rs: the test of the version that a request expects.
unfoldable pub check_expected_aggregate_version : ExpectedAggregateVersion → Option ℕ → Bool
check_expected_aggregate_version any current = true
check_expected_aggregate_version no_aggregate none = true
check_expected_aggregate_version no_aggregate (some version) = false
check_expected_aggregate_version aggregate_exists none = false
check_expected_aggregate_version aggregate_exists (some version) = true
check_expected_aggregate_version (exact expected) none = false
check_expected_aggregate_version (exact expected) (some version) = version == expected
