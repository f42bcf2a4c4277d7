-- ===== src/Snapshot/Store/Laws.antt =====
-- The current snapshot and the deleted ones.
use mathlib.Core.Path.{subst}
use eventfs.Snapshot.{SnapshotHeader, SnapshotMeta}
use eventfs.Prelude.{
  ℕ, ◌≡◌, ◌⊎◌, ◌∙◌, ap, sym, inl, inr, refl, true, false, Option, none, some, List, [], ◌∷◌, ◌==◌,
  eq_iff, nat_ord, if◌then◌else◌, Option-cases, Bool-cases, arith,
}
use eventfs.Snapshot.Store.{
  SnapshotEntry, Position, at_most, Found, better, position_of, is_ahead, candidate, latest_from,
  latest,
}

at_most_refl : (a : Position) → at_most a a ≡ true
at_most_refl a = ground arith

pub at_most_trans :
    (a b c : Position) → at_most a b ≡ true → at_most b c ≡ true → at_most a c ≡ true
at_most_trans a b c h k = ground (arith, h, k)

pub at_most_total : (a b : Position) → at_most a b ≡ false → at_most b a ≡ true
at_most_total a b h = ground (arith, h)

-- A member of a list of snapshots.
abbrev pub IsIn : Found → List Found → Type 0
IsIn f [] = ⊥
IsIn f (g ∷ gs) = (f ≡ g) ⊎ IsIn f gs

-- All positions are at most one.
abbrev pub AreAtMost : List Found → Position → Type 0
AreAtMost [] b = Unit
AreAtMost (f ∷ fs) b = (at_most f.0 b ≡ true) × AreAtMost fs b

-- The best of a list, from one on.
abbrev pick : Option Found → List Found → Option Found
pick best [] = best
pick best (f ∷ fs) = pick (better best f) fs

pick_lem :
    (best : Found) (fs : List Found)
    → (f : Found) × (pick (some best) fs ≡ some f)
      × ((f ≡ best) ⊎ IsIn f fs)
      × (at_most best.0 f.0 ≡ true)
      × AreAtMost fs f.0
pick_lem best [] = (best, refl, inl refl, at_most_refl best.0, tt)
pick_lem best (g ∷ fs) = elim (Bool-cases (at_most g.0 best.0)) [
  | inl older ↦
      let (f, found, from, above, all) = pick_lem best fs in
      (
        f,
        ap (λ b. pick (if b then some best else some g) fs) older ∙ found,
        elim from [ inl same ↦ inl same | inr later ↦ inr (inr later) ],
        above,
        (at_most_trans g.0 best.0 f.0 older above, all),
      )
  | inr newer ↦
      let (f, found, from, above, all) = pick_lem g fs in
      (
        f,
        ap (λ b. pick (if b then some best else some g) fs) newer ∙ found,
        inr from,
        at_most_trans best.0 g.0 f.0 (at_most_total g.0 best.0 newer) above,
        (above, all),
      )
]

abbrev consed : Option Found → List Found → List Found
consed none fs = fs
consed (some f) fs = f ∷ fs

latest_of :
    (fs : List Found)
    → ((fs ≡ []) × (pick none fs ≡ none))
      ⊎ ((f : Found) × IsIn f fs × (pick none fs ≡ some f) × AreAtMost fs f.0)
latest_of [] = inl (refl, refl)
latest_of (g ∷ fs) =
    let (f, found, from, above, all) = pick_lem g fs in inr (f, from, found, (above, all))

at_most_all :
    (fs : List Found) (b : Position) (g : Found) → AreAtMost fs b → IsIn g fs → at_most g.0 b ≡ true
at_most_all [] b g v h = absurd h
at_most_all (f ∷ fs) b g (k, v) (inl same) = ap (λ z. at_most z.0 b) same ∙ k
at_most_all (f ∷ fs) b g (k, v) (inr later) = at_most_all fs b g v later

module _ {LogId Membership : Type 0} where
  -- An entry of the directory.
  abbrev pub IsEntryOf :
      SnapshotEntry LogId Membership → List (SnapshotEntry LogId Membership) → Type 0
  IsEntryOf e [] = ⊥
  IsEntryOf e (d ∷ entries) = (e ≡ d) ⊎ IsEntryOf e entries

module _ {LogId Membership : Type 0} (term index : LogId → ℕ) (shard_id : ℕ) where
  -- The snapshots of the shard that are not ahead of what is applied.
  abbrev pub candidates : Option LogId → List (SnapshotEntry LogId Membership) → List Found
  candidates applied [] = []
  candidates applied (e ∷ entries) =
      consed (candidate term index shard_id applied e) (candidates applied entries)

  latest_from-pick :
      (applied : Option LogId) (best : Option Found)
      (entries : List (SnapshotEntry LogId Membership))
      → latest_from term index shard_id applied best entries
        ≡ pick best (candidates applied entries)
  unfolding latest_from
  latest_from-pick applied best [] = refl
  latest_from-pick applied best (e ∷ entries) =
      elim (Option-cases (candidate term index shard_id applied e)) [
        | inl passed ↦ rw (latest_from, passed) (latest_from-pick applied best entries)
        | inr (g, seen) ↦ rw (latest_from, seen) (latest_from-pick applied (better best g) entries)
      ]

  -- A snapshot of the shard, read from an entry, that is not ahead of what is applied.
  pub record IsSnapshot (applied : Option LogId) (e : SnapshotEntry LogId Membership) (f : Found)
      : Type 0 where
    pub header : SnapshotHeader
    pub meta : SnapshotMeta LogId Membership
    pub has_header : e.header ≡ some header
    pub own_shard : header.shard_id ≡ shard_id
    pub has_meta : e.meta ≡ some meta
    pub not_ahead : is_ahead term index meta.last_log_id applied ≡ false
    pub stands_at : f ≡ (position_of term index meta.last_log_id, e.path)

  candidate-IsSnapshot :
      (applied : Option LogId) (e : SnapshotEntry LogId Membership) (f : Found)
      → IsSnapshot applied e f
      → candidate term index shard_id applied e ≡ some f
  unfolding candidate
  candidate-IsSnapshot applied e f v =
      let same : (v.header.shard_id == shard_id) ≡ true =
        (eq_iff v.header.shard_id shard_id).1 v.own_shard in
      rw (candidate, v.has_header, same, v.has_meta, v.not_ahead) (ap some (sym v.stands_at))

  IsSnapshot-candidate :
      (applied : Option LogId) (e : SnapshotEntry LogId Membership) (f : Found)
      → candidate term index shard_id applied e ≡ some f
      → IsSnapshot applied e f
  unfolding candidate
  IsSnapshot-candidate applied e f h = elim (Option-cases e.header) [
    | inl damaged ↦ absurd (ground (arith, h, damaged))
    | inr (header, read) ↦ elim (Bool-cases (header.shard_id == shard_id)) [
      | inr foreign ↦ absurd (ground (arith, h, read, foreign))
      | inl same ↦ elim (Option-cases e.meta) [
        | inl damaged ↦ absurd (ground (arith, h, read, same, damaged))
        | inr (meta, has) ↦ elim (Bool-cases (is_ahead term index meta.last_log_id applied)) [
          | inl ahead ↦ absurd (ground (arith, h, read, same, has, ahead))
          | inr behind ↦ record {
            header = header;
            meta = meta;
            has_header = read;
            own_shard = (eq_iff header.shard_id shard_id).0 same;
            has_meta = has;
            not_ahead = behind;
            stands_at = ground (arith, h, read, same, has, behind);
          }
        ]
      ]
    ]
  ]

  entry_of :
      (applied : Option LogId) (f : Found) (entries : List (SnapshotEntry LogId Membership))
      → IsIn f (candidates applied entries)
      → (e : SnapshotEntry LogId Membership) × IsEntryOf e entries × IsSnapshot applied e f
  entry_of applied f [] h = absurd h
  entry_of applied f (d ∷ entries) h =
      elim (Option-cases (candidate term index shard_id applied d)) [
        | inl passed ↦
            let (e, there, v) =
              entry_of applied f entries
                (subst (λ o. IsIn f (consed o (candidates applied entries))) passed h) in
            (e, inr there, v)
        | inr (g, seen) ↦
            elim (subst (λ o. IsIn f (consed o (candidates applied entries))) seen h) [
              | inl same ↦
                  (d, inl refl, IsSnapshot-candidate applied d f (seen ∙ ap some (sym same)))
              | inr later ↦
                  let (e, there, v) = entry_of applied f entries later in (e, inr there, v)
            ]
      ]

  candidates-IsEntryOf :
      (applied : Option LogId) (e : SnapshotEntry LogId Membership) (f : Found)
      (entries : List (SnapshotEntry LogId Membership))
      → IsEntryOf e entries
      → candidate term index shard_id applied e ≡ some f
      → IsIn f (candidates applied entries)
  candidates-IsEntryOf applied e f [] h c = absurd h
  candidates-IsEntryOf applied e f (d ∷ entries) (inl same) c =
      subst (λ o. IsIn f (consed o (candidates applied entries)))
        (sym c ∙ ap (candidate term index shard_id applied) same) (inl refl)
  candidates-IsEntryOf applied e f (d ∷ entries) (inr later) c =
      further (candidate term index shard_id applied d) (candidates applied entries)
        (candidates-IsEntryOf applied e f entries later c)
    where
      further : (o : Option Found) (fs : List Found) → IsIn f fs → IsIn f (consed o fs)
      further none fs h = h
      further (some g) fs h = inr h

  -- `latest` answers with no file when the directory has no snapshot of the shard that is not ahead of
  -- what is applied, and else with the file of such a snapshot that stands at the greatest position of
  -- all of them.
  pub latest_lem :
      (applied : Option LogId) (entries : List (SnapshotEntry LogId Membership))
      → ((latest term index shard_id applied entries ≡ none)
          × ((e : SnapshotEntry LogId Membership) (f : Found)
              → IsEntryOf e entries
              → ¬ IsSnapshot applied e f))
        ⊎ ((e : SnapshotEntry LogId Membership) × (f : Found) × IsEntryOf e entries
            × IsSnapshot applied e f
            × (latest term index shard_id applied entries ≡ some f.1)
            × ((d : SnapshotEntry LogId Membership) (g : Found)
                → IsEntryOf d entries
                → IsSnapshot applied d g
                → at_most g.0 f.0 ≡ true))
  unfolding latest
  latest_lem applied entries =
      let same = latest_from-pick applied none entries in
      elim (latest_of (candidates applied entries)) [
        | inl (none_left, nothing) ↦ inl (
          rw (same, nothing, latest) refl,
          λ e f there v.
              subst (IsIn f) none_left (
                candidates-IsEntryOf applied e f entries there
                  (candidate-IsSnapshot applied e f v)),
        )
        | inr (f, here, found, all) ↦
            let (e, there, v) = entry_of applied f entries here in
            inr (
              e,
              f,
              there,
              v,
              rw (same, found, latest) refl,
              λ d g at w. at_most_all (candidates applied entries) f.0 g all (
                  candidates-IsEntryOf applied d g entries at (candidate-IsSnapshot applied d g w)),
            )
      ]
