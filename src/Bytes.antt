-- ===== src/Bytes.antt =====
-- Byte strings as lists of numbers below 256, and the big-endian and little-endian bytes of
-- machine words.
pub mod Laws
use eventfs.Prelude.{ℕ, zero, suc, ◌+◌, ◌*◌, ◌/◌, ◌%◌, ◌^◌, ◌<◌, List, [], ◌∷◌, ◌++◌, length}

abbrev pub Bytes : Type 0
Bytes = List ℕ

-- `to_be_bytes` of a word of `width` bytes: the last byte is the lowest.
unfoldable pub to_be_bytes : ℕ → ℕ → Bytes
to_be_bytes zero v = []
to_be_bytes (suc width) v = to_be_bytes width (v / 256) ++ (v % 256) ∷ []

-- `from_be_bytes`, from the first byte on
unfoldable pub from_be_bytes : ℕ → Bytes → ℕ
from_be_bytes acc [] = acc
from_be_bytes acc (b ∷ bs) = from_be_bytes (acc * 256 + b) bs

-- `to_le_bytes`: the first byte is the lowest.
unfoldable pub to_le_bytes : ℕ → ℕ → Bytes
to_le_bytes zero v = []
to_le_bytes (suc width) v = v % 256 ∷ to_le_bytes width (v / 256)

-- `from_le_bytes`
unfoldable pub from_le_bytes : Bytes → ℕ
from_le_bytes [] = 0
from_le_bytes (b ∷ bs) = b + 256 * from_le_bytes bs

-- A byte string behind its length as a `u64`.
unfoldable pub len_prefixed : Bytes → Bytes
unfolding to_be_bytes
len_prefixed bytes = to_be_bytes 8 (length bytes) ++ bytes
