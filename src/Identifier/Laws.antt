-- ===== src/Identifier/Laws.antt =====
-- Accepted identifiers, and the printing and parsing of type identities (es-core/src/aggregate.rs).
use eventfs.Prelude.{
  ℕ, ◌≤◌, ◌≡◌, ◌≢◌, ◌↔◌, ◌∙◌, ap, sym, refl, false, List, [], ◌∷◌, ◌++◌, Text, nat_ord, list_ord,
  length, length-append, ok, arith,
}
use eventfs.Identifier.{
  is_ascii_alphanumeric, is_identifier_byte, any_bad_byte, validate_aggregate_identifier,
  AggregateTypeId, new, validate, canonical_name, has_byte, split, from_parts, push_byte, from_str,
}

-- An accepted identifier is not empty, not longer than the limit, and without a slash.
pub identifier_bytes :
    (value : Text)
    → validate_aggregate_identifier value ≡ ok tt
    → (1 ≤ length value) × (length value ≤ 128) × (any_bad_byte value ≡ false)
unfolding validate_aggregate_identifier
identifier_bytes value h = ground arith

pub no_slash : (value : Text) → any_bad_byte value ≡ false → has_byte b'/' value ≡ false
unfolding any_bad_byte is_identifier_byte is_ascii_alphanumeric
no_slash [] h = refl
no_slash (c ∷ cs) h = ground (arith, no_slash cs)

pub split-none : (value : Text) → has_byte b'/' value ≡ false → split b'/' value ≡ value ∷ []
unfolding split
split-none [] h = refl
split-none (c ∷ cs) h = ground (arith, split-none cs)

split-append :
    (a b : Text)
    → has_byte b'/' a ≡ false
    → has_byte b'/' b ≡ false
    → split b'/' (a ++ b'/' ∷ b) ≡ a ∷ b ∷ []
unfolding split
split-append [] b ha hb = ground (arith, split-none b)
split-append (c ∷ cs) b ha hb = ground (arith, split-append cs b)

pub valid_parts :
    (id : AggregateTypeId)
    → validate id ≡ ok tt
    → (validate_aggregate_identifier id.business_space ≡ ok tt)
      × (validate_aggregate_identifier id.aggregate_type ≡ ok tt)
unfolding validate
valid_parts id h = ground arith

split_canonical :
    (id : AggregateTypeId)
    → validate id ≡ ok tt
    → split b'/' (canonical_name id) ≡ id.business_space ∷ id.aggregate_type ∷ []
unfolding canonical_name
split_canonical id h =
    let (valid_space, valid_type) = valid_parts id h in
    split-append id.business_space id.aggregate_type
      (no_slash id.business_space (identifier_bytes id.business_space valid_space).2)
      (no_slash id.aggregate_type (identifier_bytes id.aggregate_type valid_type).2)

-- An identity that `validate` accepts is read back by `from_str` from its canonical name.
pub from_str-canonical_name :
    (id : AggregateTypeId) → validate id ≡ ok tt → from_str (canonical_name id) ≡ ok id
unfolding from_str new
from_str-canonical_name id h =
    let (valid_space, valid_type) = valid_parts id h in
    ground (
      arith,
      split_canonical id h,
      valid_space,
      valid_type,
      identifier_bytes id.business_space,
      identifier_bytes id.aggregate_type,
    )

-- The parts of a text, joined by the separator, are the text.
join : ℕ → List Text → Text
join sep [] = []
join sep (part ∷ []) = part
join sep (part ∷ next ∷ parts) = part ++ sep ∷ join sep (next ∷ parts)

push_byte-ne : (sep c : ℕ) (parts : List Text) → push_byte sep c parts ≢ []
unfolding push_byte
push_byte-ne sep c [] h = ground arith
push_byte-ne sep c (part ∷ parts) h = ground arith

pub split-ne : (sep : ℕ) (value : Text) → split sep value ≢ []
unfolding split
split-ne sep [] h = ground arith
split-ne sep (c ∷ cs) h = push_byte-ne sep c (split sep cs) h

join-push_byte :
    (sep c : ℕ) (parts : List Text)
    → parts ≢ []
    → join sep (push_byte sep c parts) ≡ c ∷ join sep parts
unfolding push_byte join
join-push_byte sep c [] h = absurd (h refl)
join-push_byte sep c (part ∷ []) h = ground arith
join-push_byte sep c (part ∷ next ∷ parts) h = ground arith

join-split : (sep : ℕ) (value : Text) → join sep (split sep value) ≡ value
unfolding split
join-split sep [] = unfold join in refl
join-split sep (c ∷ cs) =
    join-push_byte sep c (split sep cs) (split-ne sep cs) ∙ ap (λ t. c ∷ t) (join-split sep cs)

-- What `from_str` reads is valid, and prints as the text that was read.
pub canonical_name-from_str :
    (value : Text) (id : AggregateTypeId)
    → from_str value ≡ ok id
    → (canonical_name id ≡ value) × (validate id ≡ ok tt)
unfolding from_str new validate canonical_name join
canonical_name-from_str value id h = parts (split b'/' value) (join-split b'/' value) h
  where
    parts :
        (l : List Text)
        → join b'/' l ≡ value
        → from_parts l ≡ ok id
        → (canonical_name id ≡ value) × (validate id ≡ ok tt)
    parts [] e p = ground arith
    parts (a ∷ []) e p = ground arith
    parts (a ∷ b ∷ []) e p = ground arith
    parts (a ∷ b ∷ c ∷ l) e p = ground arith

pub length-canonical_name :
    (id : AggregateTypeId) → validate id ≡ ok tt → length (canonical_name id) ≤ 257
unfolding canonical_name
length-canonical_name id h =
    let (valid_space, valid_type) = valid_parts id h in
    omega (
      arith,
      length-append id.business_space (b'/' ∷ id.aggregate_type),
      (identifier_bytes id.business_space valid_space).1,
      (identifier_bytes id.aggregate_type valid_type).1,
    )

-- Two valid identities with one canonical name are the same.
pub canonical_name_injective :
    (id id' : AggregateTypeId)
    → validate id ≡ ok tt
    → validate id' ≡ ok tt
    → canonical_name id ≡ canonical_name id'
    → id ≡ id'
canonical_name_injective id id' h h' e =
    ground (arith, from_str-canonical_name id h, from_str-canonical_name id' h')

-- `from_str` reads an identity from a text exactly when `validate` accepts the identity and the text is
-- its canonical name.
pub from_str_lem :
    (value : Text) (id : AggregateTypeId)
    → from_str value ≡ ok id ↔ ((validate id ≡ ok tt) × (value ≡ canonical_name id))
from_str_lem value id = (
  λ h. let (printed, valid) = canonical_name-from_str value id h in (valid, sym printed),
  λ (valid, printed). ap from_str printed ∙ from_str-canonical_name id valid,
)
