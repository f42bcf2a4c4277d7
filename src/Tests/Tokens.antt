-- ===== src/Tests/Tokens.antt =====
-- Settlements in JSON.
use eventfs.Prelude.{ℕ, ◌≡◌, refl, List, [], ◌∷◌, map, Text, Result, ok, arith}
use eventfs.Fuse.Codec.{Settlement, ack, retry, parse_settlements}
use eventfs.Fuse.Codec.Laws.{written, AreTokens, AreBytes, parse_settlements-written}

abbrev two_settlements : List Settlement
two_settlements =
    record { delivery_id = 0 ∷ 255 ∷ []; action = retry; reason = b'l' ∷ [] }
    ∷ record { delivery_id = 17 ∷ []; action = ack; reason = [] }
    ∷ []

-- A reader of one text.
abbrev from_slice : Text → Result ℕ (List Settlement)
from_slice bytes = ok (map written two_settlements)

abbrev json_text : Text
json_text = b'{' ∷ b'}' ∷ []

tokens : AreTokens two_settlements
unfolding AreTokens AreBytes
tokens = (
  λ e. ground (arith, e),
  (omega arith, (omega arith, tt)),
  ((λ e. ground (arith, e)), (omega arith, tt), tt),
)

parse_settlements-written_example : parse_settlements from_slice json_text 1024 ≡ ok two_settlements
parse_settlements-written_example =
    parse_settlements-written from_slice json_text 1024 two_settlements refl (omega arith)
      (λ e. ground (arith, e)) tokens
