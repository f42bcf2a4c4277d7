-- ===== src/Key/Kinds.antt =====
-- `is_aggregate_event_key`, by which a restore counts the events.
use eventfs.Prelude.{ℕ, ◌≡◌, refl, [], ◌∷◌, ◌++◌, ◌==◌, nat_ord, eq_refl, length-append, arith}
use eventfs.Bytes.{Bytes, to_be_bytes}
use eventfs.Bytes.Laws.{length-to_be_bytes}
use eventfs.Key.{event, sub_tag, SmKey, family, encode, slice_is, is_aggregate_event_key}
use eventfs.Key.Laws.{body, encode-body}

-- A common beginning is found.
slice_is-append : (p q key : Bytes) → slice_is (p ++ q) (p ++ key) ≡ slice_is q key
unfolding slice_is
slice_is-append [] q key = refl
slice_is-append (b ∷ bs) q key = ground (arith, slice_is-append bs q key, eq_refl b)

-- Of the state machine keys of a shard, exactly those of the event family are event keys.
pub is_aggregate_event_key-encode :
    (s : ℕ) (k : SmKey)
    → is_aggregate_event_key s (encode s k) ≡ (sub_tag (family k) == sub_tag event)
unfolding is_aggregate_event_key slice_is
is_aggregate_event_key-encode s k = rw encode-body (
    ground (
      arith,
      slice_is-append (to_be_bytes 8 s) (sub_tag event ∷ []) (sub_tag (family k) ∷ body k),
      length-append (to_be_bytes 8 s) (sub_tag (family k) ∷ body k),
      length-to_be_bytes 8 s,
    ))
