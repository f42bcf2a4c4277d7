-- ===== src/Identifier.antt =====
-- es-core/src/aggregate.rs: identifiers and `AggregateTypeId`.
pub mod Laws
use Prim.Native.Nat.{Ordering}
use Prim.Native.Nat.Ordering.{eq}
use eventfs.Prelude.Ordered.{then_by}
use eventfs.Prelude.{
  ℕ, ◌+◌, ◌≡◌, arith, Bool, true, false, not, ◌&&◌, ◌||◌, List, [], ◌∷◌, ◌++◌, Text, ◌==◌, nat_ord,
  list_ord, pair_ord, ltb, leb, length, if◌then◌else◌, Ord, Result, ok, err, ◌>>=◌, ◌>>◌,
}

-- `Error::InvalidInput(message)`: the check that failed stands for its message.
pub data InvalidInput : Type 0 where
  bad_length reserved_name bad_character malformed_type_id zero_partition_count : InvalidInput

abbrev pub max_identifier_bytes : ℕ
max_identifier_bytes = 128

-- "events.jsonl", "states", "groups"
abbrev pub reserved_identifiers : List Text
reserved_identifiers =
    (b'e' ∷ b'v' ∷ b'e' ∷ b'n' ∷ b't' ∷ b's' ∷ b'.' ∷ b'j' ∷ b's' ∷ b'o' ∷ b'n' ∷ b'l' ∷ [])
    ∷ (b's' ∷ b't' ∷ b'a' ∷ b't' ∷ b'e' ∷ b's' ∷ [])
    ∷ (b'g' ∷ b'r' ∷ b'o' ∷ b'u' ∷ b'p' ∷ b's' ∷ [])
    ∷ []

unfoldable pub contains : Text → List Text → Bool
contains value [] = false
contains value (x ∷ xs) = value == x || contains value xs

unfoldable pub is_ascii_alphanumeric : ℕ → Bool
is_ascii_alphanumeric c =
    (leb b'0' c && leb c b'9') || (leb b'A' c && leb c b'Z') || (leb b'a' c && leb c b'z')

unfoldable pub is_identifier_byte : ℕ → Bool
unfolding is_ascii_alphanumeric
is_identifier_byte c = is_ascii_alphanumeric c || c == b'.' || c == b'_' || c == b'-'

unfoldable pub any_bad_byte : Text → Bool
unfolding is_identifier_byte
any_bad_byte [] = false
any_bad_byte (c ∷ cs) = not (is_identifier_byte c) || any_bad_byte cs

unfoldable pub bad_first_byte : Text → Bool
unfolding is_ascii_alphanumeric
bad_first_byte [] = true
bad_first_byte (c ∷ cs) = not (is_ascii_alphanumeric c)

unfoldable pub validate_aggregate_identifier : Text → Result InvalidInput (Unit {0})
unfolding contains any_bad_byte bad_first_byte
validate_aggregate_identifier value =
    if length value == 0 || ltb max_identifier_bytes (length value)
    then err bad_length
    else if contains value reserved_identifiers
    then err reserved_name
    else if bad_first_byte value || any_bad_byte value
    then err bad_character
    else ok tt

pub record AggregateTypeId : Type 0 where
  pub business_space : Text
  pub aggregate_type : Text

unfoldable pub new : Text → Text → Result InvalidInput AggregateTypeId
new business_space aggregate_type = do
  validate_aggregate_identifier business_space
  validate_aggregate_identifier aggregate_type
  ok (record { business_space = business_space; aggregate_type = aggregate_type })

unfoldable pub validate : AggregateTypeId → Result InvalidInput (Unit {0})
validate id = do
  validate_aggregate_identifier id.business_space
  validate_aggregate_identifier id.aggregate_type

unfoldable pub canonical_name : AggregateTypeId → Text
canonical_name id = id.business_space ++ b'/' ∷ id.aggregate_type

-- `str::contains(c)`
abbrev pub has_byte : ℕ → Text → Bool
has_byte c [] = false
has_byte c (x ∷ xs) = x == c || has_byte c xs

-- `str::split`: there is always a first part. A byte goes to the front of the parts that follow it.
unfoldable pub push_byte : ℕ → ℕ → List Text → List Text
push_byte sep c [] = [] ∷ []
push_byte sep c (part ∷ parts) = if c == sep then [] ∷ part ∷ parts else (c ∷ part) ∷ parts

unfoldable pub split : ℕ → Text → List Text
unfolding push_byte
split sep [] = [] ∷ []
split sep (c ∷ cs) = push_byte sep c (split sep cs)

-- `parts.next()` three times
unfoldable pub from_parts : List Text → Result InvalidInput AggregateTypeId
from_parts (business_space ∷ aggregate_type ∷ []) =
    if length business_space == 0 || length aggregate_type == 0
    then err malformed_type_id
    else new business_space aggregate_type
from_parts _ = err malformed_type_id

unfoldable pub from_str : Text → Result InvalidInput AggregateTypeId
unfolding from_parts split
from_str value = from_parts (split b'/' value)

-- The derived order: by the first field, then by the second.
abbrev pub type_id_cmp : AggregateTypeId → AggregateTypeId → Ordering
type_id_cmp x y =
    then_by ((list_ord {A = ℕ}).cmp x.business_space y.business_space)
      ((list_ord {A = ℕ}).cmp x.aggregate_type y.aggregate_type)

pub type_id_cmp_refl : (x : AggregateTypeId) → type_id_cmp x x ≡ eq
type_id_cmp_refl x = ground (
  arith,
  (list_ord {A = ℕ}).cmp_refl x.business_space,
  (list_ord {A = ℕ}).cmp_refl x.aggregate_type,
)

pub type_id_eq_of_cmp : (x y : AggregateTypeId) → type_id_cmp x y ≡ eq → x ≡ y
type_id_eq_of_cmp x y h = ground (
  arith,
  (list_ord {A = ℕ}).eq_of_cmp x.business_space y.business_space,
  (list_ord {A = ℕ}).eq_of_cmp x.aggregate_type y.aggregate_type,
)

instance abbrev pub type_id_ord : Ord AggregateTypeId
type_id_ord = record {
  cmp = type_id_cmp;
  cmp_refl = type_id_cmp_refl;
  eq_of_cmp = type_id_eq_of_cmp;
}
