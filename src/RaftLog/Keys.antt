-- ===== src/RaftLog/Keys.antt =====
-- The keys of the Raft log in the order of the engine.
use Prim.Native.Nat.{compare}
use Prim.Native.Nat.Ordering.{lt, gt}
use eventfs.Prelude.{
  ℕ, ◌<◌, ◌^◌, ◌≡◌, ◌≢◌, ◌↔◌, refl, ◌∙◌, true, false, ◌&&◌, [], ◌∷◌, ◌++◌, nat_ord, leb, ltb,
  Bool-cases, inl, inr, arith,
}
use eventfs.Prelude.Ordered.{list_cmp, list_cmp_refl}
use eventfs.Bytes.{Bytes, to_be_bytes}
use eventfs.Bytes.Laws.{list_cmp-append, list_cmp-to_be_bytes}
use eventfs.Key.{
  raft_log_prefix, raft_log_entry, raft_log_upper, raft_vote, raft_last_purged, sub_prefix,
  tag_raft, successor,
}
use eventfs.Key.Log.{raft_log_upper-raft_vote}
use eventfs.Key.Scan.{AllBytes, successor_range, below_successor}
use eventfs.Snapshot.Install.{is_before, is_between}

-- Entries are in the order of their indices.
pub entry_order :
    (s i j : ℕ)
    → i < 2 ^ 64
    → j < 2 ^ 64
    → list_cmp (raft_log_entry s i) (raft_log_entry s j) ≡ compare i j
unfolding raft_log_entry
entry_order s i j hi hj =
    list_cmp-append (raft_log_prefix s) (raft_log_prefix s) (to_be_bytes 8 i) (to_be_bytes 8 j) refl
    ∙ ground (
      arith,
      list_cmp_refl (raft_log_prefix s),
      list_cmp-to_be_bytes 8 i j (omega arith) (omega arith),
    )

not_before_prefix : (p rest : Bytes) → list_cmp (p ++ rest) p ≢ lt
unfolding list_cmp
not_before_prefix [] [] = λ h. ground arith
not_before_prefix [] (r ∷ rest) = λ h. ground arith
not_before_prefix (b ∷ p) rest = ground (arith, not_before_prefix p rest)

pub cmp_flip : (a b : Bytes) → (list_cmp a b ≡ lt) ↔ (list_cmp b a ≡ gt)
unfolding list_cmp
cmp_flip [] [] = (λ h. ground arith, λ h. ground arith)
cmp_flip [] (y ∷ b) = (λ h. ground arith, λ h. ground arith)
cmp_flip (x ∷ a) [] = (λ h. ground arith, λ h. ground arith)
cmp_flip (x ∷ a) (y ∷ b) = (λ h. ground (arith, cmp_flip a b), λ h. ground (arith, cmp_flip a b))

-- `a ≤ b < c` gives `a < c`, and `a < b ≤ c` as well.
le_lt : (a b c : Bytes) → list_cmp b a ≢ lt → list_cmp b c ≡ lt → list_cmp a c ≡ lt
unfolding list_cmp
le_lt [] [] c h k = k
le_lt [] (y ∷ b) [] h k = ground arith
le_lt [] (y ∷ b) (z ∷ c) h k = ground arith
le_lt (x ∷ a) [] c h k = absurd (h (ground arith))
le_lt (x ∷ a) (y ∷ b) [] h k = ground arith
le_lt (x ∷ a) (y ∷ b) (z ∷ c) h k = ground (arith, le_lt a b c)

lt_le : (a b c : Bytes) → list_cmp a b ≡ lt → list_cmp c b ≢ lt → list_cmp a c ≡ lt
unfolding list_cmp
lt_le [] [] c h k = ground arith
lt_le [] (y ∷ b) [] h k = absurd (k (ground arith))
lt_le [] (y ∷ b) (z ∷ c) h k = ground arith
lt_le (x ∷ a) [] c h k = ground arith
lt_le (x ∷ a) (y ∷ b) [] h k = absurd (k (ground arith))
lt_le (x ∷ a) (y ∷ b) (z ∷ c) h k = ground (arith, lt_le a b c)

entry_below_vote : (s i : ℕ) → list_cmp (raft_log_entry s i) (raft_vote s) ≡ lt
unfolding raft_log_entry successor raft_log_upper
entry_below_vote s i =
    below_successor (raft_log_prefix s) (to_be_bytes 8 i) (raft_vote s) (raft_log_upper-raft_vote s)

pub between_entries :
    (s a b i : ℕ)
    → a < 2 ^ 64
    → b < 2 ^ 64
    → i < 2 ^ 64
    → is_between (raft_log_entry s a) (raft_log_entry s b) (raft_log_entry s i)
      ≡ (leb a i && ltb i b)
between_entries s a b i ha hb hi = ground (arith, entry_order s i a hi ha, entry_order s i b hi hb)

pub between_entry-vote :
    (s a i : ℕ)
    → a < 2 ^ 64
    → i < 2 ^ 64
    → is_between (raft_log_entry s a) (raft_vote s) (raft_log_entry s i) ≡ leb a i
between_entry-vote s a i ha hi = ground (arith, entry_order s i a hi ha, entry_below_vote s i)

pub entry_from_prefix : (s i : ℕ) → list_cmp (raft_log_entry s i) (raft_log_prefix s) ≢ lt
unfolding raft_log_entry
entry_from_prefix s i = not_before_prefix (raft_log_prefix s) (to_be_bytes 8 i)

pub between_prefix-entry :
    (s b i : ℕ)
    → b < 2 ^ 64
    → i < 2 ^ 64
    → is_between (raft_log_prefix s) (raft_log_entry s b) (raft_log_entry s i) ≡ ltb i b
between_prefix-entry s b i hb hi = ground (arith, entry_order s i b hi hb, entry_from_prefix s i)

pub between_prefix-vote :
    (s i : ℕ) → is_between (raft_log_prefix s) (raft_vote s) (raft_log_entry s i) ≡ true
between_prefix-vote s i = ground (arith, entry_from_prefix s i, entry_below_vote s i)

-- A range has keys only if its start is before its end.
pub between-is_before :
    (low high k : Bytes) → is_between low high k ≡ true → is_before low high ≡ true
between-is_before low high k h = ground (arith, h, le_lt low k high)

-- A key that does not begin as the log's keys do is in no range of the log.
pub between_outside :
    (s : ℕ) (low high k : Bytes)
    → AllBytes k
    → ((rest : Bytes) → k ≢ raft_log_prefix s ++ rest)
    → list_cmp low (raft_log_prefix s) ≢ lt
    → list_cmp (raft_vote s) high ≢ lt
    → is_between low high k ≡ false
unfolding successor raft_log_upper
between_outside s low high k small other from below = elim (Bool-cases (is_between low high k)) [
  | inr out ↦ out
  | inl inside ↦
      let before : list_cmp k high ≡ lt = ground (arith, inside) in
      let after : list_cmp k low ≢ lt = λ e. ground (arith, inside, e) in
      let above = le_of (raft_log_prefix s) low k from after in
      let (rest, e) =
        (successor_range (raft_log_prefix s) k (raft_vote s) small (raft_log_upper-raft_vote s)).0
          (above, lt_le k high (raft_vote s) before below) in
      absurd (other rest e)
]
  where
    le_of : (p l c : Bytes) → list_cmp l p ≢ lt → list_cmp c l ≢ lt → list_cmp p c ≢ gt
    le_of p l c h k g = h (lt_of l c p k ((cmp_flip c p).1 g))
      where
        lt_of : (l c p : Bytes) → list_cmp c l ≢ lt → list_cmp c p ≡ lt → list_cmp l p ≡ lt
        lt_of l c p k g = le_lt l c p k g

three_after_two : list_cmp {A = ℕ} (0x03 ∷ []) (0x02 ∷ []) ≡ gt
unfolding list_cmp
three_after_two = refl

-- The marker of a purge is after the log.
pub between-raft_last_purged :
    (s : ℕ) (low high : Bytes)
    → list_cmp (raft_vote s) high ≢ lt
    → is_between low high (raft_last_purged s) ≡ false
unfolding raft_vote raft_last_purged sub_prefix
between-raft_last_purged s low high below =
    let after : list_cmp (raft_last_purged s) (raft_vote s) ≢ lt = λ e. ground (
      arith,
      list_cmp-append (tag_raft ∷ to_be_bytes 8 s) (tag_raft ∷ to_be_bytes 8 s) (0x03 ∷ [])
          (0x02 ∷ []) refl,
      list_cmp_refl (tag_raft ∷ to_be_bytes 8 s),
      three_after_two,
      e,
    ) in
    let beyond : list_cmp (raft_last_purged s) high ≢ lt =
      λ e. after (lt_le (raft_last_purged s) high (raft_vote s) e below) in
    ground (arith, beyond)

pub entry_not_before : (s i : ℕ) → list_cmp (raft_vote s) (raft_log_entry s i) ≢ lt
entry_not_before s i e =
    ground (arith, e, entry_below_vote s i, cmp_flip (raft_log_entry s i) (raft_vote s))
