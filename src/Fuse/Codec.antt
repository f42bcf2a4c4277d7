-- ===== src/Fuse/Codec.antt =====
-- eventfs-fuse/src/codec.rs: what is read from JSON, and hexadecimal tokens.
pub mod Laws
use eventfs.Prelude.{
  ℕ, zero, suc, ◌+◌, ◌*◌, ◌-◌, ◌/◌, ◌%◌, Bool, true, false, not, ◌&&◌, ◌||◌, Option, none, some,
  List, [], ◌∷◌, Text, ◌==◌, nat_ord, list_ord, ltb, leb, length, unwrap_or, if◌then◌else◌, Result,
  ok, err, ◌>>=◌, ◌>>◌, map_err,
}
use eventfs.Identifier.{validate_aggregate_identifier}

pub data FieldName : Type 0 where
  aggregate_id_field event_type_field metadata_field settlements_field : FieldName

pub data CodecError (JsonError : Type 0) : Type 0 where
  too_large : CodecError JsonError
  json : JsonError → CodecError JsonError
  unsupported_spec : Text → CodecError JsonError
  invalid_field : FieldName → CodecError JsonError
  invalid_token : CodecError JsonError
  missing_event : CodecError JsonError
  -- A slice of a string that is not cut between two characters panics.
  panicked : CodecError JsonError

pub data AggregateVersionExpectation : Type 0 where
  any no_aggregate exists : AggregateVersionExpectation
  exact : ℕ → AggregateVersionExpectation

pub record EventEnvelope (Uuid : Type 0) : Type 0 where
  pub aggregate_id : Text
  pub event_type : Text
  pub payload : Text
  pub metadata : Text
  pub event_id : Uuid
  pub expected_version : AggregateVersionExpectation

pub record WireEventEnvelope (Uuid Value : Type 0) : Type 0 where
  pub spec_version : Text
  pub aggregate_id : Text
  pub event_type : Text
  pub payload : Value
  pub event_id : Option Uuid
  pub expected_version : Option AggregateVersionExpectation
  pub metadata : Value

pub data SettlementAction : Type 0 where
  ack retry park skip : SettlementAction

-- `Settlement`, and `WireSettlement`, whose delivery is still in hexadecimal digits.
pub record Settlement : Type 0 where
  pub delivery_id : Text
  pub action : SettlementAction
  pub reason : Text

unfoldable pub check_size :
    {JsonError : Type 0} → Text → ℕ → Result (CodecError JsonError) (Unit {0})
check_size bytes max_bytes = if ltb max_bytes (length bytes) then err too_large else ok tt

-- `char::to_digit(16)` of an ASCII character
unfoldable pub to_digit : ℕ → Option ℕ
to_digit c =
    if leb b'0' c && leb c b'9'
    then some (c - b'0')
    else if leb b'a' c && leb c b'f'
    then some (c - b'a' + 10)
    else if leb b'A' c && leb c b'F'
    then some (c - b'A' + 10)
    else none

-- `u8::from_str_radix(_, 16)` of two characters: a sign may stand before the digits.
unfoldable pub from_str_radix : ℕ → ℕ → Option ℕ
unfolding to_digit
from_str_radix a b = if a == b'+' then to_digit b else elim (to_digit a) [
  | none ↦ none
  | some high ↦ elim (to_digit b) [ none ↦ none | some low ↦ some (16 * high + low) ]
]

-- A byte of UTF-8 before which no character begins.
abbrev pub is_continuation : ℕ → Bool
is_continuation c = leb 128 c && ltb c 192

abbrev pub begins_inside : Text → Bool
begins_inside [] = false
begins_inside (c ∷ cs) = is_continuation c

module _ {JsonError : Type 0} where
  unfoldable pub decode_pairs : Text → Result (CodecError JsonError) Text
  unfolding from_str_radix
  decode_pairs [] = ok []
  decode_pairs (a ∷ []) = err invalid_token
  decode_pairs (a ∷ b ∷ rest) =
      let later = decode_pairs rest in
      if is_continuation a || begins_inside rest then err panicked else elim (from_str_radix a b) [
        | none ↦ err invalid_token
        | some byte ↦ later >>= λ bytes. ok (byte ∷ bytes)
      ]

  unfoldable pub decode_hex : Text → Result (CodecError JsonError) Text
  unfolding decode_pairs
  decode_hex value =
      if length value == 0 || not (length value % 2 == 0)
      then err invalid_token
      else decode_pairs value

  unfoldable pub decode_settlements :
      List Settlement → Result (CodecError JsonError) (List Settlement)
  unfolding decode_hex
  decode_settlements [] = ok []
  decode_settlements (settlement ∷ settlements) = do
    token ← decode_hex settlement.delivery_id
    rest ← decode_settlements settlements
    ok (record settlement { delivery_id = token } ∷ rest)

  -- The settlements of a `SettlementEnvelope`; `from_slice` is that of serde_json.
  unfoldable pub parse_settlements :
      (from_slice : Text → Result JsonError (List Settlement))
      → Text
      → ℕ
      → Result (CodecError JsonError) (List Settlement)
  unfolding check_size decode_settlements
  parse_settlements from_slice bytes max_bytes = do
    check_size bytes max_bytes
    wire ← map_err json (from_slice bytes)
    if length wire == 0 then err (invalid_field settlements_field) else decode_settlements wire

-- "1.0"
abbrev pub spec_version_1 : Text
spec_version_1 = b'1' ∷ b'.' ∷ b'0' ∷ []

-- serde_json's `from_slice`, `to_vec` and `is_object`, and a UUID that `Uuid::new_v4` makes
module _ {JsonError Uuid Value : Type 0}
    (from_slice : Text → Result JsonError (WireEventEnvelope Uuid Value)) (to_vec : Value → Text)
    (is_object : Value → Bool) (new_v4 : Uuid) where
  abbrev pub check_spec : WireEventEnvelope Uuid Value → Result (CodecError JsonError) (Unit {0})
  check_spec wire =
      if not (wire.spec_version == spec_version_1)
      then err (unsupported_spec wire.spec_version)
      else ok tt

  abbrev pub check_fields : WireEventEnvelope Uuid Value → Result (CodecError JsonError) (Unit {0})
  check_fields wire =
      if length wire.event_type == 0
      then err (invalid_field event_type_field)
      else if not (is_object wire.metadata)
      then err (invalid_field metadata_field)
      else ok tt

  unfoldable pub parse_event : Text → ℕ → Result (CodecError JsonError) (EventEnvelope Uuid)
  unfolding check_size
  parse_event bytes max_bytes = do
    check_size bytes max_bytes
    wire ← map_err json (from_slice bytes)
    check_spec wire
    map_err (λ e. invalid_field aggregate_id_field)
        (validate_aggregate_identifier wire.aggregate_id)
    check_fields wire
    ok (record {
      aggregate_id = wire.aggregate_id;
      event_type = wire.event_type;
      payload = to_vec wire.payload;
      metadata = to_vec wire.metadata;
      event_id = unwrap_or wire.event_id new_v4;
      expected_version = unwrap_or wire.expected_version any;
    })

-- `format!("{:x}")` of a number below 16
unfoldable pub hex_digit : ℕ → ℕ
hex_digit d = if ltb d 10 then b'0' + d else b'a' + (d - 10)

unfoldable pub hex : Text → Text
unfolding hex_digit
hex [] = []
hex (byte ∷ bytes) = hex_digit (byte / 16) ∷ hex_digit (byte % 16) ∷ hex bytes
