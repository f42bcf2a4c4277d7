-- ===== src/Snapshot/Store/Own.antt =====
-- The files of a directory that belong to a shard, as `retain` of es-storage/src/snapshot.rs counts them.
use mathlib.Core.Path.{subst}
use eventfs.Snapshot.{SnapshotHeader}
use eventfs.Prelude.{
  ℕ, ◌≡◌, inl, inr, refl, sym, some, List, [], ◌∷◌, ◌==◌, eq_iff, nat_ord, Option-cases, Bool-cases,
  arith,
}
use eventfs.Snapshot.Store.{SnapshotEntry, Found, position_of, log_id_of, own}

module _ {LogId Membership : Type 0} (term index : LogId → ℕ) (shard_id : ℕ) where
  -- A file whose header is read and names the shard, at the position of its last log identity.
  pub record IsOwn (e : SnapshotEntry LogId Membership) (f : Found) : Type 0 where
    pub header : SnapshotHeader
    pub has_header : e.header ≡ some header
    pub own_shard : header.shard_id ≡ shard_id
    pub stands_at : f ≡ (position_of term index (log_id_of e.meta), e.path)

  -- The files of the shard in a directory, each entry once.
  pub data AreOwn : List (SnapshotEntry LogId Membership) → List Found → Type 0 where
    no_entries : AreOwn [] []
    own_file :
        {e : SnapshotEntry LogId Membership} {f : Found}
        {entries : List (SnapshotEntry LogId Membership)} {fs : List Found}
        → IsOwn e f
        → AreOwn entries fs
        → AreOwn (e ∷ entries) (f ∷ fs)
    other_file :
        {e : SnapshotEntry LogId Membership} {entries : List (SnapshotEntry LogId Membership)}
        {fs : List Found}
        → ((f : Found) → ¬ IsOwn e f)
        → AreOwn entries fs
        → AreOwn (e ∷ entries) fs

  pub own-AreOwn :
      (entries : List (SnapshotEntry LogId Membership))
      → AreOwn entries (own term index shard_id entries)
  unfolding own
  own-AreOwn [] = no_entries
  own-AreOwn (e ∷ entries) = elim (Option-cases e.header) [
    | inl damaged ↦
        rw (own, damaged)
          (other_file (λ f v. absurd (ground (arith, damaged, v.has_header))) (own-AreOwn entries))
    | inr (header, read) ↦ elim (Bool-cases (header.shard_id == shard_id)) [
      | inr foreign ↦
          let passed : own term index shard_id (e ∷ entries) ≡ own term index shard_id entries =
            rw (own, read, foreign) refl in
          let other : (f : Found) → ¬ IsOwn e f = λ f v. absurd (
            ground
              (arith, read, foreign, v.has_header, v.own_shard, eq_iff header.shard_id shard_id)) in
          subst (AreOwn (e ∷ entries)) (sym passed) (other_file other (own-AreOwn entries))
      | inl same ↦
          let place : Found = (position_of term index (log_id_of e.meta), e.path) in
          let counted : own term index shard_id (e ∷ entries)
              ≡ place ∷ own term index shard_id entries =
            rw (own, read, same) refl in
          let mine : IsOwn e place = record {
            header = header;
            has_header = read;
            own_shard = (eq_iff header.shard_id shard_id).0 same;
            stands_at = refl;
          } in
          subst (AreOwn (e ∷ entries)) (sym counted) (own_file mine (own-AreOwn entries))
    ]
  ]
