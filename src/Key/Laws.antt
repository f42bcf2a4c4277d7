-- ===== src/Key/Laws.antt =====
-- The bytes of different keys of the state machine (es-storage/src/key.rs).
use mathlib.Core.List.{append_assoc, append-nil}
use eventfs.Prelude.{ℕ, ◌<◌, ◌^◌, ◌≡◌, refl, sym, ◌∙◌, [], ◌∷◌, ◌++◌, length, arith, ok}
use eventfs.Bytes.{Bytes, to_be_bytes, len_prefixed}
use eventfs.Bytes.Laws.{
  length-to_be_bytes, append_cancel, to_be_bytes_injective, len_prefixed_injective,
}
use eventfs.Identifier.{AggregateTypeId, canonical_name, validate}
use eventfs.Identifier.Laws.{length-canonical_name, canonical_name_injective}
use eventfs.Key.{
  sub_tag, tag_sm, SmKey, applied_state_key, catalog_key, group_catalog_key, event_key, meta_key,
  partition_index_key, next_position_key, partition_fence_key, state_key, state_modified_key,
  idempotency_key, group_partition_key, family, encode,
}

-- A word at the front of two equal strings is one word.
word_injective :
    (width v w : ℕ) (c d : Bytes)
    → v < 256 ^ width
    → w < 256 ^ width
    → to_be_bytes width v ++ c ≡ to_be_bytes width w ++ d
    → (v ≡ w) × (c ≡ d)
word_injective width v w c d hv hw e =
    let (heads, rest) =
      append_cancel (to_be_bytes width v) (to_be_bytes width w) c d
        (length-to_be_bytes width v ∙ sym (length-to_be_bytes width w)) e in
    (to_be_bytes_injective width v w hv hw heads, rest)

-- What follows the shard and the sub-tag in a key.
type_part : AggregateTypeId → ℕ → Bytes → Bytes
type_part t p rest = len_prefixed (canonical_name t) ++ (to_be_bytes 2 p ++ rest)

pub body : SmKey → Bytes
unfolding type_part
body applied_state_key = []
body catalog_key = []
body group_catalog_key = []
body (event_key t p a v) = type_part t p (len_prefixed a ++ to_be_bytes 8 v)
body (meta_key t p a) = type_part t p (len_prefixed a ++ [])
body (partition_index_key t p n) = type_part t p (to_be_bytes 8 n ++ [])
body (next_position_key t p) = type_part t p []
body (partition_fence_key t p) = type_part t p []
body (state_key t p a) = type_part t p a
body (state_modified_key t p a) = type_part t p a
body (idempotency_key t p e) = type_part t p (to_be_bytes 16 e ++ [])
body (group_partition_key t p g) = type_part t p (len_prefixed g ++ [])

pub encode-body :
    (s : ℕ) (k : SmKey) → encode s k ≡ tag_sm ∷ (to_be_bytes 8 s ++ (sub_tag (family k) ∷ body k))
unfolding encode family body
encode-body s applied_state_key = refl
encode-body s catalog_key = refl
encode-body s group_catalog_key = refl
encode-body s (event_key t p a v) = simp append_assoc
encode-body s _ = simp (append_assoc, append-nil)

-- The fields of a key fit their widths, and its names are valid.
abbrev IsTyped : AggregateTypeId → ℕ → Type 0
IsTyped t p = (validate t ≡ ok tt) × (p < 2 ^ 16)

abbrev pub IsKey : SmKey → Type 0
IsKey (event_key t p a v) = IsTyped t p × (length a < 2 ^ 64) × (v < 2 ^ 64)
IsKey (meta_key t p a) = IsTyped t p × (length a < 2 ^ 64)
IsKey (partition_index_key t p n) = IsTyped t p × (n < 2 ^ 64)
IsKey (next_position_key t p) = IsTyped t p
IsKey (partition_fence_key t p) = IsTyped t p
IsKey (state_key t p a) = IsTyped t p
IsKey (state_modified_key t p a) = IsTyped t p
IsKey (idempotency_key t p e) = IsTyped t p × (e < 2 ^ 128)
IsKey (group_partition_key t p g) = IsTyped t p × (length g < 2 ^ 64)
IsKey _ = Unit

type_part_injective :
    (t u : AggregateTypeId) (p q : ℕ) (c d : Bytes)
    → IsTyped t p
    → IsTyped u q
    → type_part t p c ≡ type_part u q d
    → (t ≡ u) × (p ≡ q) × (c ≡ d)
unfolding type_part
type_part_injective t u p q c d (vt, hp) (vu, hq) e =
    let (names, rest) =
      len_prefixed_injective (canonical_name t) (canonical_name u) (to_be_bytes 2 p ++ c)
        (to_be_bytes 2 q ++ d) (omega (arith, length-canonical_name t vt))
        (omega (arith, length-canonical_name u vu)) e in
    let (partitions, tails) = word_injective 2 p q c d (omega arith) (omega arith) rest in
    (canonical_name_injective t u vt vu names, partitions, tails)

-- Keys of one family with the same rest are the same key.
same_body :
    (k l : SmKey)
    → IsKey k
    → IsKey l
    → sub_tag (family k) ≡ sub_tag (family l)
    → body k ≡ body l
    → k ≡ l
unfolding family body
same_body applied_state_key applied_state_key hk hl f e = refl
same_body catalog_key catalog_key hk hl f e = refl
same_body group_catalog_key group_catalog_key hk hl f e = refl
same_body (event_key t p a v) (event_key u q b w) (tk, ha, hv) (tl, hb, hw) f e =
    let (types, partitions, rest) = type_part_injective t u p q _ _ tk tl e in
    let (ids, versions) =
      len_prefixed_injective a b (to_be_bytes 8 v) (to_be_bytes 8 w) (omega arith) (omega arith)
        rest in
    cc (types, partitions, ids, to_be_bytes_injective 8 v w (omega arith) (omega arith) versions)
same_body (meta_key t p a) (meta_key u q b) (tk, ha) (tl, hb) f e =
    let (types, partitions, rest) = type_part_injective t u p q _ _ tk tl e in
    cc (types, partitions, (len_prefixed_injective a b [] [] (omega arith) (omega arith) rest).0)
same_body (partition_index_key t p n) (partition_index_key u q m) (tk, hn) (tl, hm) f e =
    let (types, partitions, rest) = type_part_injective t u p q _ _ tk tl e in
    cc (types, partitions, (word_injective 8 n m [] [] (omega arith) (omega arith) rest).0)
same_body (next_position_key t p) (next_position_key u q) tk tl f e =
    let (types, partitions, rest) = type_part_injective t u p q [] [] tk tl e in
    cc (types, partitions)
same_body (partition_fence_key t p) (partition_fence_key u q) tk tl f e =
    let (types, partitions, rest) = type_part_injective t u p q [] [] tk tl e in
    cc (types, partitions)
same_body (state_key t p a) (state_key u q b) tk tl f e =
    let (types, partitions, rest) = type_part_injective t u p q a b tk tl e in
    cc (types, partitions, rest)
same_body (state_modified_key t p a) (state_modified_key u q b) tk tl f e =
    let (types, partitions, rest) = type_part_injective t u p q a b tk tl e in
    cc (types, partitions, rest)
same_body (idempotency_key t p i) (idempotency_key u q j) (tk, hi) (tl, hj) f e =
    let (types, partitions, rest) = type_part_injective t u p q _ _ tk tl e in
    cc (types, partitions, (word_injective 16 i j [] [] (omega arith) (omega arith) rest).0)
same_body (group_partition_key t p g) (group_partition_key u q h) (tk, hg) (tl, hh) f e =
    let (types, partitions, rest) = type_part_injective t u p q _ _ tk tl e in
    cc (types, partitions, (len_prefixed_injective g h [] [] (omega arith) (omega arith) rest).0)
same_body _ _ hk hl f e = absurd (omega arith)

-- Keys of the state machine with the same bytes are of the same shard and are the same key, if their
-- type identities are valid and their numbers and lengths fit the widths of the encoding.
pub encode_injective :
    (s s' : ℕ) (k l : SmKey)
    → s < 2 ^ 64
    → s' < 2 ^ 64
    → IsKey k
    → IsKey l
    → encode s k ≡ encode s' l
    → (s ≡ s') × (k ≡ l)
encode_injective s s' k l hs hs' hk hl e =
    let (shards, rest) = shard_split in
    (shards, same_body k l hk hl (ground (arith, rest)) (ground (arith, rest)))
  where
    bytes :
        tag_sm ∷ (to_be_bytes 8 s ++ (sub_tag (family k) ∷ body k))
        ≡ tag_sm ∷ (to_be_bytes 8 s' ++ (sub_tag (family l) ∷ body l))
    bytes = sym (encode-body s k) ∙ e ∙ encode-body s' l

    tails :
        to_be_bytes 8 s ++ (sub_tag (family k) ∷ body k)
        ≡ to_be_bytes 8 s' ++ (sub_tag (family l) ∷ body l)
    tails = cc bytes

    shard_split : (s ≡ s') × ((sub_tag (family k) ∷ body k) ≡ (sub_tag (family l) ∷ body l))
    shard_split = word_injective 8 s s' _ _ (omega arith) (omega arith) tails
