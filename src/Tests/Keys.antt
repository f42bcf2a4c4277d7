-- ===== src/Tests/Keys.antt =====
-- Identifiers, keys and clocks.
use eventfs.Prelude.{ℕ, ◌≡◌, ◌↔◌, refl, some, List, [], ◌∷◌, Text, nat_ord, ok, arith}
use eventfs.Prelude.Ordered.{list_cmp}
use eventfs.Identifier.{
  contains, is_ascii_alphanumeric, is_identifier_byte, any_bad_byte, bad_first_byte,
  validate_aggregate_identifier, AggregateTypeId, validate, canonical_name, split, push_byte,
  from_parts, new, from_str,
}
use eventfs.Identifier.Laws.{from_str_lem}
use eventfs.Hlc.{Hlc, clocks, Ascending, clocks-Ascending}
use eventfs.Key.{SmKey, event_key}
use eventfs.Key.Laws.{encode_injective}

-- "shop/order"
abbrev order_type : AggregateTypeId
order_type = record {
  business_space = b's' ∷ b'h' ∷ b'o' ∷ b'p' ∷ [];
  aggregate_type = b'o' ∷ b'r' ∷ b'd' ∷ b'e' ∷ b'r' ∷ [];
}

abbrev order_name : Text
order_name = b's' ∷ b'h' ∷ b'o' ∷ b'p' ∷ b'/' ∷ b'o' ∷ b'r' ∷ b'd' ∷ b'e' ∷ b'r' ∷ []

order_type_valid : validate order_type ≡ ok tt
unfolding validate validate_aggregate_identifier any_bad_byte bad_first_byte contains
    is_identifier_byte is_ascii_alphanumeric list_cmp
order_type_valid = refl

order_name_read : from_str order_name ≡ ok order_type
unfolding from_str split push_byte from_parts new validate_aggregate_identifier any_bad_byte
    bad_first_byte contains is_identifier_byte is_ascii_alphanumeric list_cmp
order_name_read = refl

from_str_lem_example :
    from_str order_name ≡ ok order_type
    ↔ ((validate order_type ≡ ok tt) × (order_name ≡ canonical_name order_type))
from_str_lem_example = from_str_lem order_name order_type

abbrev first_tick : Hlc
first_tick = record { wall = 1000; logical = 0 }

abbrev clock_readings : List ℕ
clock_readings = 1000 ∷ 998 ∷ 1001 ∷ []

clocks-Ascending_example : Ascending first_tick (clocks (some first_tick) clock_readings)
clocks-Ascending_example = clocks-Ascending first_tick clock_readings (omega arith)

abbrev first_shard : ℕ
first_shard = 1

abbrev instance_name : Text
instance_name = b'a' ∷ b'1' ∷ []

abbrev order_event : SmKey
order_event = event_key order_type 3 instance_name 9

encode_injective_example : (first_shard ≡ first_shard) × (order_event ≡ order_event)
encode_injective_example =
    encode_injective first_shard first_shard order_event order_event (omega arith) (omega arith)
      ((order_type_valid, omega arith), omega arith, omega arith)
      ((order_type_valid, omega arith), omega arith, omega arith) refl
