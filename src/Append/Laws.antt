-- ===== src/Append/Laws.antt =====
-- The bytes under `aggregate_append_fingerprint` (es-core/src/aggregate.rs).
use eventfs.Prelude.{ℕ, ◌<◌, ◌^◌, ◌≡◌, [], ◌++◌, ap, Text, length, arith}
use eventfs.Bytes.{Bytes, to_be_bytes}
use eventfs.Bytes.Laws.{append_cancel, same_width, to_be_bytes_injective, len_prefixed_injective}
use eventfs.Identifier.{AggregateTypeId}
use eventfs.Append.{
  NewAggregateEvent, ExpectedAggregateVersion, any, no_aggregate, aggregate_exists, exact,
  expected_bytes, event_bytes, append_bytes,
}

-- The lengths and the number of the event fit their widths.
pub record IsEvent (e : NewAggregateEvent) : Type 0 where
  pub event_id : e.event_id < 2 ^ 128
  pub event_type : length e.event_type < 2 ^ 64
  pub data_bytes : length e.data_bytes < 2 ^ 64
  pub metadata : length e.metadata < 2 ^ 64

abbrev pub IsVersion : ExpectedAggregateVersion → Type 0
IsVersion (exact version) = version < 2 ^ 64
IsVersion _ = Unit

-- Words of one width at the front of equal strings are the same word.
word_injective :
    (width v w : ℕ) (c d : Bytes)
    → v < 256 ^ width
    → w < 256 ^ width
    → to_be_bytes width v ++ c ≡ to_be_bytes width w ++ d
    → (v ≡ w) × (c ≡ d)
word_injective width v w c d hv hw e =
    let (words, rest) =
      append_cancel (to_be_bytes width v) (to_be_bytes width w) c d (same_width width v w) e in
    (to_be_bytes_injective width v w hv hw words, rest)

expected_injective :
    (m n : ExpectedAggregateVersion) (c d : Bytes)
    → IsVersion m
    → IsVersion n
    → expected_bytes m ++ c ≡ expected_bytes n ++ d
    → (m ≡ n) × (c ≡ d)
unfolding expected_bytes
expected_injective (exact v) (exact w) c d hv hw e =
    let (versions, rest) = word_injective 8 v w c d (omega arith) (omega arith) (ground arith) in
    (ap exact versions, rest)
expected_injective any n c d hm hn e = ground arith
expected_injective no_aggregate n c d hm hn e = ground arith
expected_injective aggregate_exists n c d hm hn e = ground arith
expected_injective (exact v) any c d hm hn e = ground arith
expected_injective (exact v) no_aggregate c d hm hn e = ground arith
expected_injective (exact v) aggregate_exists c d hm hn e = ground arith

event_injective :
    (e f : NewAggregateEvent) → IsEvent e → IsEvent f → event_bytes e ≡ event_bytes f → e ≡ f
unfolding event_bytes
event_injective e f he hf h =
    let (ids, rest) =
      word_injective 16 e.event_id f.event_id _ _ (omega (arith, he.event_id))
        (omega (arith, hf.event_id)) h in
    let (types, rest') =
      len_prefixed_injective e.event_type f.event_type _ _ (omega (arith, he.event_type))
        (omega (arith, hf.event_type)) rest in
    let (datas, rest'') =
      len_prefixed_injective e.data_bytes f.data_bytes _ _ (omega (arith, he.data_bytes))
        (omega (arith, hf.data_bytes)) rest' in
    let (metas, rest''') =
      len_prefixed_injective e.metadata f.metadata [] [] (omega (arith, he.metadata))
        (omega (arith, hf.metadata)) (ap (λ b. b ++ []) rest'') in
    ground (arith, ids, types, datas, metas)

-- Two append requests whose fingerprints are taken of the same bytes are the same request, if their
-- numbers and lengths fit the widths of the encoding.
pub append_bytes_injective :
    (t u : AggregateTypeId) (a b : Text) (m n : ExpectedAggregateVersion)
    → (e f : NewAggregateEvent)
    → (length t.business_space < 2 ^ 64) × (length t.aggregate_type < 2 ^ 64) × (length a < 2 ^ 64)
    → (length u.business_space < 2 ^ 64) × (length u.aggregate_type < 2 ^ 64) × (length b < 2 ^ 64)
    → IsVersion m
    → IsVersion n
    → IsEvent e
    → IsEvent f
    → append_bytes t a m e ≡ append_bytes u b n f
    → (t ≡ u) × (a ≡ b) × (m ≡ n) × (e ≡ f)
unfolding append_bytes
append_bytes_injective t u a b m n e f (ht, hk, ha) (hu, hl, hb) hm hn he hf h =
    let (spaces, rest) =
      len_prefixed_injective t.business_space u.business_space _ _ (omega arith) (omega arith) h in
    let (types, rest') =
      len_prefixed_injective t.aggregate_type u.aggregate_type _ _ (omega arith) (omega arith)
        rest in
    let (ids, rest'') = len_prefixed_injective a b _ _ (omega arith) (omega arith) rest' in
    let (versions, rest''') = expected_injective m n _ _ hm hn rest'' in
    (ground (arith, spaces, types), ids, versions, event_injective e f he hf rest''')
