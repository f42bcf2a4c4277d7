-- ===== src/Snapshot/Store.antt =====
-- `SnapshotStore` of es-storage/src/snapshot.rs: which file of the directory is current, and which are
-- deleted. The entries of the directory are an argument; reading it and deleting files is input and output.
pub mod Laws
pub mod Own
pub mod Retention
use eventfs.Prelude.{
  ℕ, zero, suc, ◌+◌, ◌-◌, Bool, true, false, not, ◌&&◌, ◌||◌, Option, none, some, List, [], ◌∷◌,
  map, Text, ◌==◌, nat_ord, ltb, leb, length, take, if◌then◌else◌, Result, ok, err,
}
use eventfs.Snapshot.{SnapshotHeader, SnapshotMeta}

-- A file, and its header and meta data where they could be read.
pub record SnapshotEntry (LogId Membership : Type 0) : Type 0 where
  pub path : Text
  pub header : Option SnapshotHeader
  pub meta : Option (SnapshotMeta LogId Membership)

-- `(term, index)`, in the order of pairs
abbrev pub Position : Type 0
Position = ℕ × ℕ

abbrev pub at_most : Position → Position → Bool
at_most a b = ltb a.0 b.0 || (a.0 == b.0 && leb a.1 b.1)

-- A snapshot of the shard: where it stands, and its file.
abbrev pub Found : Type 0
Found = Position × Text

-- Of the best so far and another one, the first among equals.
abbrev pub better : Option Found → Found → Option Found
better none f = some f
better (some best) f = if at_most f.0 best.0 then some best else some f

-- The stable sort by the position.
unfoldable pub insert_by_position : Found → List Found → List Found
insert_by_position f [] = f ∷ []
insert_by_position f (g ∷ gs) =
    let rest = insert_by_position f gs in if at_most f.0 g.0 then f ∷ g ∷ gs else g ∷ rest

unfoldable pub sort_by_position : List Found → List Found
unfolding insert_by_position
sort_by_position [] = []
sort_by_position (f ∷ fs) = insert_by_position f (sort_by_position fs)

pub data RetainError : Type 0 where
  keep_is_zero : RetainError

-- The terms and the indices of the identities
module _ {LogId : Type 0} (term index : LogId → ℕ) where
  abbrev pub position_of : Option LogId → Position
  position_of none = (0, 0)
  position_of (some l) = (term l, index l)

  -- `(m.term, m.index) > (a.term, a.index)`, where both are there
  abbrev pub is_ahead : Option LogId → Option LogId → Bool
  is_ahead (some m) (some a) = not (at_most (position_of (some m)) (position_of (some a)))
  is_ahead (some m) none = false
  is_ahead none applied = false

module _ {LogId Membership : Type 0} where
  -- `entry.meta.as_ref().and_then(|m| m.last_log_id)`
  abbrev pub log_id_of : Option (SnapshotMeta LogId Membership) → Option LogId
  log_id_of none = none
  log_id_of (some meta) = meta.last_log_id

module _ {LogId Membership : Type 0} (term index : LogId → ℕ) (shard_id : ℕ) where
  unfoldable pub candidate : Option LogId → SnapshotEntry LogId Membership → Option Found
  candidate applied e = elim e.header [
    | none ↦ none
    | some header ↦ if not (header.shard_id == shard_id) then none else elim e.meta [
      | none ↦ none
      | some meta ↦
          if is_ahead term index meta.last_log_id applied
          then none
          else some (position_of term index meta.last_log_id, e.path)
    ]
  ]

  unfoldable pub latest_from :
      Option LogId → Option Found → List (SnapshotEntry LogId Membership) → Option Found
  unfolding candidate
  latest_from applied best [] = best
  latest_from applied best (e ∷ entries) = elim (candidate applied e) [
    | none ↦ latest_from applied best entries
    | some f ↦ latest_from applied (better best f) entries
  ]

  unfoldable pub latest : Option LogId → List (SnapshotEntry LogId Membership) → Option Text
  unfolding latest_from
  latest applied entries = elim (latest_from applied none entries) [
    | none ↦ none
    | some f ↦ some f.1
  ]

  unfoldable pub own : List (SnapshotEntry LogId Membership) → List Found
  own [] = []
  own (e ∷ entries) =
      let rest = own entries in
      elim e.header [
        | none ↦ rest
        | some header ↦
            if not (header.shard_id == shard_id)
            then rest
            else (position_of term index (log_id_of e.meta), e.path) ∷ rest
      ]

  -- The files that are deleted, the oldest first.
  unfoldable pub retain : ℕ → List (SnapshotEntry LogId Membership) → Result RetainError (List Text)
  unfolding own sort_by_position
  retain keep entries =
      let valid = sort_by_position (own entries) in
      if keep == 0 then err keep_is_zero else ok (map (λ f. f.1) (take (length valid - keep) valid))
