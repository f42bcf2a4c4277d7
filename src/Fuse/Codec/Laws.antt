-- ===== src/Fuse/Codec/Laws.antt =====
-- The tokens of a delivery, written and read back.
use eventfs.Prelude.{
  ℕ, suc, ◌*◌, ◌/◌, ◌%◌, ◌≤◌, ◌<◌, ◌≡◌, ◌≢◌, refl, true, false, some, List, [], ◌∷◌, map, Text,
  ◌==◌, eq_iff, nat_ord, ltb, length, Result, ok, arith,
}
use eventfs.Fuse.Codec.{
  Settlement, check_size, to_digit, from_str_radix, is_continuation, begins_inside, decode_pairs,
  decode_hex, decode_settlements, parse_settlements, hex_digit, hex,
}

to_digit-hex_digit : (d : ℕ) → d < 16 → to_digit (hex_digit d) ≡ some d
unfolding to_digit hex_digit
to_digit-hex_digit d h = ground (arith, h)

hex_digit-plain : (d : ℕ) → d < 16 → (hex_digit d < 128) × (hex_digit d ≢ b'+')
unfolding hex_digit
hex_digit-plain d h = ground (arith, h)

from_str_radix-hex :
    (byte : ℕ)
    → byte < 256
    → from_str_radix (hex_digit (byte / 16)) (hex_digit (byte % 16)) ≡ some byte
unfolding from_str_radix
from_str_radix-hex byte h = ground (
  arith,
  to_digit-hex_digit (byte / 16) (omega (arith, h)),
  to_digit-hex_digit (byte % 16) (omega arith),
  hex_digit-plain (byte / 16) (omega (arith, h)),
  eq_iff (hex_digit (byte / 16)) b'+',
)

-- Bytes
unfoldable pub AreBytes : Text → Type 0
AreBytes [] = Unit
AreBytes (byte ∷ bytes) = (byte < 256) × AreBytes bytes

begins-hex : (bytes : Text) → AreBytes bytes → begins_inside (hex bytes) ≡ false
unfolding hex AreBytes
begins-hex [] v = refl
begins-hex (byte ∷ bytes) (b, v) = ground (arith, hex_digit-plain (byte / 16) (omega (arith, b)))

length-hex : (bytes : Text) → length (hex bytes) ≡ 2 * length bytes
unfolding hex
length-hex [] = omega arith
length-hex (byte ∷ bytes) = omega (arith, length-hex bytes)

module _ {JsonError : Type 0} where
  decode_pairs-cons :
      (a b byte : ℕ) (rest bytes : Text)
      → is_continuation a ≡ false
      → begins_inside rest ≡ false
      → from_str_radix a b ≡ some byte
      → decode_pairs {JsonError = JsonError} rest ≡ ok bytes
      → decode_pairs {JsonError = JsonError} (a ∷ b ∷ rest) ≡ ok (byte ∷ bytes)
  unfolding decode_pairs
  decode_pairs-cons a b byte rest bytes first next pair later = rw (first, next, pair, later) refl

  decode_pairs-hex :
      (bytes : Text) → AreBytes bytes → decode_pairs {JsonError = JsonError} (hex bytes) ≡ ok bytes
  unfolding hex AreBytes decode_pairs
  decode_pairs-hex [] v = refl
  decode_pairs-hex (byte ∷ bytes) (b, v) =
      decode_pairs-cons (hex_digit (byte / 16)) (hex_digit (byte % 16)) byte (hex bytes) bytes
        (ground (arith, hex_digit-plain (byte / 16) (omega (arith, b)))) (begins-hex bytes v)
        (from_str_radix-hex byte b) (decode_pairs-hex bytes v)

  decode_hex_lem :
      (value bytes : Text) (n : ℕ)
      → length value ≡ 2 * suc n
      → decode_pairs {JsonError = JsonError} value ≡ ok bytes
      → decode_hex {JsonError = JsonError} value ≡ ok bytes
  unfolding decode_hex
  decode_hex_lem value bytes n even pairs =
      rw (has_bytes (length value) n even, is_even (length value) n even) pairs
    where
      has_bytes : (k n : ℕ) → k ≡ 2 * suc n → (k == 0) ≡ false
      has_bytes k n e = ground (arith, e, eq_iff k 0)

      is_even : (k n : ℕ) → k ≡ 2 * suc n → (k % 2 == 0) ≡ true
      is_even k n e = ground (arith, eq_iff (k % 2) 0, remainder k n e)
        where
          remainder : (k n : ℕ) → k ≡ 2 * suc n → k % 2 ≡ 0
          remainder k n e = omega (arith, e)

  decode_hex-hex :
      (bytes : Text)
      → bytes ≢ []
      → AreBytes bytes
      → decode_hex {JsonError = JsonError} (hex bytes) ≡ ok bytes
  decode_hex-hex [] n v = absurd (n refl)
  decode_hex-hex (byte ∷ bytes) n v =
      decode_hex_lem (hex (byte ∷ bytes)) (byte ∷ bytes) (length bytes) (length-hex (byte ∷ bytes))
        (decode_pairs-hex (byte ∷ bytes) v)

-- The settlement of a delivery as a frame's reader writes it.
abbrev pub written : Settlement → Settlement
written s = record s { delivery_id = hex s.delivery_id }

-- Every settlement names a token.
unfoldable pub AreTokens : List Settlement → Type 0
AreTokens [] = Unit
AreTokens (s ∷ settlements) = (s.delivery_id ≢ []) × AreBytes s.delivery_id × AreTokens settlements

not_empty : {A : Type 0} (xs : List A) → (suc (length xs) == 0) ≡ false
not_empty xs = ground (arith, eq_iff (suc (length xs)) 0)

module _ {JsonError : Type 0} where
  decode_settlements-written :
      (settlements : List Settlement)
      → AreTokens settlements
      → decode_settlements {JsonError = JsonError} (map written settlements) ≡ ok settlements
  unfolding decode_settlements AreTokens
  decode_settlements-written [] v = refl
  decode_settlements-written (s ∷ settlements) (some_bytes, bytes, v) =
      rw
        (
          decode_hex-hex {JsonError = JsonError} s.delivery_id some_bytes bytes,
          decode_settlements-written settlements v,
        )
        refl

  -- Settlements of tokens, one or more, in hexadecimal digits as `delivery_frame` writes a token, in JSON of at
  -- most `max` bytes, are read back with the tokens, in their order.
  pub parse_settlements-written :
      (from_slice : Text → Result JsonError (List Settlement)) (bytes : Text) (max : ℕ)
      (settlements : List Settlement)
      → from_slice bytes ≡ ok (map written settlements)
      → length bytes ≤ max
      → settlements ≢ []
      → AreTokens settlements
      → parse_settlements from_slice bytes max ≡ ok settlements
  unfolding parse_settlements check_size
  parse_settlements-written from_slice bytes max [] read fits one v = absurd (one refl)
  parse_settlements-written from_slice bytes max (s ∷ settlements) read fits one v =
      let decoded = decode_settlements-written (s ∷ settlements) v in
      let small : ltb max (length bytes) ≡ false = ground (arith, fits) in
      rw (small, read, decoded, not_empty (map written settlements)) refl
