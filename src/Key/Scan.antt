-- ===== src/Key/Scan.antt =====
-- Range scans over the keys of es-storage/src/key.rs: prefixes, their successors, and positions.
use Prim.Native.Nat.{compare}
use Prim.Native.Nat.Ordering.{lt, gt}
use eventfs.Prelude.{
  ℕ, ◌<◌, ◌^◌, ◌≡◌, ◌≢◌, ◌↔◌, refl, ◌∙◌, none, some, Option-cases, inl, inr, [], ◌∷◌, ◌++◌, nat_ord,
  list_ord, arith,
}
use eventfs.Prelude.Ordered.{list_cmp, list_cmp_refl}
use eventfs.Bytes.{Bytes, to_be_bytes}
use eventfs.Bytes.Laws.{list_cmp-append, list_cmp-to_be_bytes}
use eventfs.Identifier.{AggregateTypeId}
use eventfs.Key.{successor, partition_index, partition_index_key, partition_prefix, encode}

abbrev pub AllBytes : Bytes → Type 0
AllBytes [] = Unit
AllBytes (b ∷ bs) = (b < 256) × AllBytes bs

-- A key between a prefix with no successor and the end has the prefix.
starts_none :
    (p k : Bytes)
    → AllBytes k
    → successor p ≡ none
    → list_cmp p k ≢ gt
    → (rest : Bytes) × (k ≡ p ++ rest)
unfolding successor list_cmp
starts_none [] k small h n = (k, refl)
starts_none (b ∷ bs) [] small h n = absurd (n refl)
starts_none (b ∷ bs) (c ∷ ks) small h n = ground (arith, starts_none bs ks)

pub not_below_nil : (k : Bytes) → list_cmp k [] ≢ lt
unfolding list_cmp
not_below_nil [] h = ground arith
not_below_nil (c ∷ ks) h = ground arith

-- A key from the prefix on and below its successor has the prefix.
starts_some :
    (p k u : Bytes)
    → AllBytes k
    → successor p ≡ some u
    → list_cmp p k ≢ gt
    → list_cmp k u ≡ lt
    → (rest : Bytes) × (k ≡ p ++ rest)
unfolding successor list_cmp
starts_some [] k u small h n l = ground arith
starts_some (b ∷ bs) [] u small h n l = absurd (n refl)
starts_some (b ∷ bs) (c ∷ ks) u small h n l = elim (Option-cases (successor bs)) [
  | inl last ↦
      let same : b ≡ c = ground (arith, not_below_nil ks) in
      let (rest, e) = starts_none bs ks small.1 last (λ g. n (ground arith)) in (rest, ground arith)
  | inr (s, later) ↦
      let same : b ≡ c = ground arith in
      let (rest, e) = starts_some bs ks s small.1 later (λ g. n (ground arith)) (ground arith) in
      (rest, ground arith)
]

pub from_prefix : (p rest : Bytes) → list_cmp p (p ++ rest) ≢ gt
unfolding list_cmp
from_prefix [] [] = λ h. ground arith
from_prefix [] (r ∷ rest) = λ h. ground arith
from_prefix (b ∷ bs) rest = ground (arith, from_prefix bs rest)

pub below_successor : (p rest u : Bytes) → successor p ≡ some u → list_cmp (p ++ rest) u ≡ lt
unfolding successor list_cmp
below_successor [] rest u h = ground arith
below_successor (b ∷ bs) rest u h = elim (Option-cases (successor bs)) [
  | inl last ↦ ground arith
  | inr (s, e) ↦ ground (arith, below_successor bs rest s)
]

-- If a prefix has a successor, the byte strings from the prefix on and below the successor are exactly
-- those that begin with the prefix.
pub successor_range :
    (p k u : Bytes)
    → AllBytes k
    → successor p ≡ some u
    → ((list_cmp p k ≢ gt) × (list_cmp k u ≡ lt)) ↔ ((rest : Bytes) × (k ≡ p ++ rest))
successor_range p k u small h = (
  λ r. starts_some p k u small h r.0 r.1,
  λ r. rw r.1 (from_prefix p r.0, below_successor p r.0 u h),
)

-- The index keys of a partition are in the order of their positions, which are `u64`.
pub partition_index_order :
    (s : ℕ) (t : AggregateTypeId) (p n m : ℕ)
    → n < 2 ^ 64
    → m < 2 ^ 64
    → list_cmp (encode s (partition_index_key t p n)) (encode s (partition_index_key t p m))
      ≡ compare n m
unfolding encode
partition_index_order s t p n m hn hm =
    let prefix = partition_prefix s partition_index t p in
    list_cmp-append prefix prefix (to_be_bytes 8 n) (to_be_bytes 8 m) refl
    ∙ ground (arith, list_cmp_refl prefix, list_cmp-to_be_bytes 8 n m (omega arith) (omega arith))
