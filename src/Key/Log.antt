-- ===== src/Key/Log.antt =====
-- The keys of the Raft log and the bounds of its scans.
use Prim.Native.Nat.Ordering.{lt, gt}
use mathlib.Core.Path.{subst}
use eventfs.Prelude.{
  ℕ, ◌<◌, ◌^◌, ◌≡◌, ◌≢◌, ◌↔◌, refl, some, [], ◌∷◌, ◌++◌, nat_ord, length, length-append, arith,
}
use eventfs.Prelude.Ordered.{list_cmp}
use eventfs.Bytes.{Bytes, to_be_bytes}
use eventfs.Bytes.Laws.{length-to_be_bytes, from-to_be_bytes}
use eventfs.Key.Scan.{not_below_nil}
use eventfs.Key.{
  tag_raft, sub_prefix, raft_log_prefix, raft_log_entry, raft_vote, raft_log_upper, successor,
  upper_including, skip, decode_u64_be, decode_log_index,
}

skip-append : (a b : Bytes) → skip (length a) (a ++ b) ≡ b
unfolding skip
skip-append [] b = refl
skip-append (x ∷ a) b = skip-append a b

successor-append : (a b u : Bytes) → successor b ≡ some u → successor (a ++ b) ≡ some (a ++ u)
unfolding successor
successor-append [] b u h = h
successor-append (x ∷ a) b u h = rw (successor-append a b u h, successor) refl

-- The index of a log entry, which is a `u64`, is read back from its key.
pub decode_log_index-raft_log_entry :
    (s i : ℕ) → i < 2 ^ 64 → decode_log_index (raft_log_entry s i) ≡ some i
unfolding decode_log_index decode_u64_be raft_log_entry raft_log_prefix sub_prefix
decode_log_index-raft_log_entry s i h =
    let prefix = tag_raft ∷ (to_be_bytes 8 s ++ 0x01 ∷ []) in
    let ten : length prefix ≡ 10 =
      omega (arith, length-append (to_be_bytes 8 s) (0x01 ∷ []), length-to_be_bytes 8 s) in
    let rest : skip 10 (prefix ++ to_be_bytes 8 i) ≡ to_be_bytes 8 i =
      subst (λ n. skip n (prefix ++ to_be_bytes 8 i) ≡ to_be_bytes 8 i) ten
        (skip-append prefix (to_be_bytes 8 i)) in
    ground (
      arith,
      rest,
      ten,
      length-append prefix (to_be_bytes 8 i),
      length-to_be_bytes 8 i,
      from-to_be_bytes 8 i (omega arith),
    )

-- The scan of a log ends at the key of the shard's vote.
pub raft_log_upper-raft_vote : (s : ℕ) → raft_log_upper s ≡ some (raft_vote s)
unfolding raft_log_upper raft_log_prefix raft_vote sub_prefix
raft_log_upper-raft_vote s =
    successor-append (tag_raft ∷ to_be_bytes 8 s) (0x01 ∷ []) (0x02 ∷ []) (unfold successor in refl)

-- Below `upper_including` of a key are exactly the byte strings that are not after the key.
pub upper_including_order :
    (x k : Bytes) → (list_cmp x (upper_including k) ≡ lt) ↔ (list_cmp x k ≢ gt)
unfolding upper_including list_cmp
upper_including_order [] [] = (λ h g. ground arith, λ h. ground arith)
upper_including_order [] (b ∷ k) = (λ h g. ground arith, λ h. ground arith)
upper_including_order (a ∷ x) [] =
    (λ h g. ground (arith, not_below_nil x), λ h. absurd (h (ground arith)))
upper_including_order (a ∷ x) (b ∷ k) = (
  λ h g. ground (arith, upper_including_order x k),
  λ h. ground (arith, upper_including_order x k),
)
