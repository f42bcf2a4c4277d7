-- ===== src/Snapshot/Store/Retention.antt =====
-- Which snapshots `retain` deletes.
use mathlib.Core.Path.{subst}
use mathlib.Core.List.{Perm}
use mathlib.Core.List.Perm
use eventfs.Prelude.{
  ℕ, zero, suc, ◌-◌, ◌≤◌, ◌<◌, ◌≡◌, ◌∙◌, ap, inl, inr, refl, min, true, false, List, [], ◌∷◌, ◌++◌,
  map, ◌==◌, nat_ord, length, take, ok, Bool-cases, arith,
}
use eventfs.Snapshot.Store.{
  SnapshotEntry, Position, at_most, Found, insert_by_position, sort_by_position, own, retain,
}
use eventfs.Snapshot.Store.Laws.{AreAtMost, at_most_trans, at_most_total}
use eventfs.Snapshot.Store.Own.{AreOwn, own-AreOwn}

-- No position of a list is before one.
abbrev AreAtLeast : Position → List Found → Type 0
AreAtLeast a [] = Unit
AreAtLeast a (f ∷ fs) = (at_most a f.0 ≡ true) × AreAtLeast a fs

abbrev IsAscending : List Found → Type 0
IsAscending [] = Unit
IsAscending (f ∷ fs) = AreAtLeast f.0 fs × IsAscending fs

-- Every position of the first list is at most every position of the second.
abbrev pub AreBefore : List Found → List Found → Type 0
AreBefore gone [] = Unit
AreBefore gone (f ∷ kept) = AreAtMost gone f.0 × AreBefore gone kept

insert-AreAtLeast :
    (a : Position) (f : Found) (fs : List Found)
    → at_most a f.0 ≡ true
    → AreAtLeast a fs
    → AreAtLeast a (insert_by_position f fs)
unfolding insert_by_position
insert-AreAtLeast a f [] h v = (h, tt)
insert-AreAtLeast a f (g ∷ fs) h (k, v) = elim (Bool-cases (at_most f.0 g.0)) [
  | inl front ↦ rw front (h, (k, v))
  | inr after ↦ rw after (k, insert-AreAtLeast a f fs h v)
]

earlier :
    (a b : Position) (fs : List Found) → at_most a b ≡ true → AreAtLeast b fs → AreAtLeast a fs
earlier a b [] h v = tt
earlier a b (f ∷ fs) h (k, v) = (at_most_trans a b f.0 h k, earlier a b fs h v)

insert-IsAscending :
    (f : Found) (fs : List Found) → IsAscending fs → IsAscending (insert_by_position f fs)
unfolding insert_by_position
insert-IsAscending f [] v = (tt, tt)
insert-IsAscending f (g ∷ fs) (k, v) = elim (Bool-cases (at_most f.0 g.0)) [
  | inl front ↦ rw front ((front, earlier f.0 g.0 fs front k), (k, v))
  | inr after ↦
      rw after
        (insert-AreAtLeast g.0 f fs (at_most_total f.0 g.0 after) k, insert-IsAscending f fs v)
]

sort-IsAscending : (fs : List Found) → IsAscending (sort_by_position fs)
unfolding sort_by_position
sort-IsAscending [] = tt
sort-IsAscending (f ∷ fs) = insert-IsAscending f (sort_by_position fs) (sort-IsAscending fs)

insert-perm : (f : Found) (fs : List Found) → Perm (insert_by_position f fs) (f ∷ fs)
unfolding insert_by_position
insert-perm f [] = Perm.rfl
insert-perm f (g ∷ fs) = elim (Bool-cases (at_most f.0 g.0)) [
  | inl front ↦ rw front Perm.rfl
  | inr after ↦ rw after (Perm.trans (Perm.cons g (insert-perm f fs)) (Perm.swap f g fs))
]

sort-perm : (fs : List Found) → Perm (sort_by_position fs) fs
unfolding sort_by_position
sort-perm [] = Perm.rfl
sort-perm (f ∷ fs) = Perm.trans (insert-perm f (sort_by_position fs)) (Perm.cons f (sort-perm fs))

length-insert_by_position :
    (f : Found) (fs : List Found) → length (insert_by_position f fs) ≡ suc (length fs)
unfolding insert_by_position
length-insert_by_position f [] = refl
length-insert_by_position f (g ∷ fs) = ground (arith, length-insert_by_position f fs)

length-sort_by_position : (fs : List Found) → length (sort_by_position fs) ≡ length fs
unfolding sort_by_position
length-sort_by_position [] = refl
length-sort_by_position (f ∷ fs) =
    length-insert_by_position f (sort_by_position fs) ∙ ap suc (length-sort_by_position fs)

last_part :
    (a : Position) (gone kept : List Found) → AreAtLeast a (gone ++ kept) → AreAtLeast a kept
last_part a [] kept l = l
last_part a (g ∷ gone) kept (h, l) = last_part a gone kept l

-- An ascending list taken apart.
taken_apart :
    (n : ℕ) (fs : List Found)
    → n ≤ length fs
    → IsAscending fs
    → (kept : List Found) × (fs ≡ take n fs ++ kept)
      × (length kept ≡ length fs - n)
      × AreBefore (take n fs) kept
taken_apart zero fs h v = (fs, refl, omega arith, nothing_before fs)
  where
    nothing_before : (l : List Found) → AreBefore [] l
    nothing_before [] = tt
    nothing_before (f ∷ l) = (tt, nothing_before l)
taken_apart (suc n) [] h v = absurd (omega (arith, h))
taken_apart (suc n) (f ∷ fs) h (least, v) =
    let (kept, whole, size, before) = taken_apart n fs (omega (arith, h)) v in
    (
      kept,
      ap (λ z. f ∷ z) whole,
      omega (arith, size),
      one_more f (take n fs) kept (rest_of f.0 (take n fs) kept fs whole least) before,
    )
  where
    rest_of :
        (a : Position) (gone kept fs : List Found)
        → fs ≡ gone ++ kept
        → AreAtLeast a fs
        → AreAtLeast a kept
    rest_of a gone kept fs e l = last_part a gone kept (subst (AreAtLeast a) e l)

    one_more :
        (f : Found) (gone kept : List Found)
        → AreAtLeast f.0 kept
        → AreBefore gone kept
        → AreBefore (f ∷ gone) kept
    one_more f gone [] l b = tt
    one_more f gone (k ∷ kept) (h, l) (a, b) = ((h, a), one_more f gone kept l b)

module _ {LogId Membership : Type 0} (term index : LogId → ℕ) (shard_id : ℕ) where
  -- With a positive number to keep, `retain` takes apart the files of the directory whose header is
  -- read and names the shard, each entry once, into those that it deletes and those that it keeps: it
  -- keeps as many as are to be kept, or all where there are fewer, and every deleted one stands at a
  -- position that is at most that of every kept one.
  pub retain_lem :
      (keep : ℕ) (entries : List (SnapshotEntry LogId Membership))
      → 0 < keep
      → (mine : List Found) × (gone : List Found) × (kept : List Found) × AreOwn term index shard_id
          entries mine
        × Perm (gone ++ kept) mine
        × (retain term index shard_id keep entries ≡ ok (map (λ f. f.1) gone))
        × (length kept ≡ min keep (length mine))
        × AreBefore gone kept
  unfolding retain
  retain_lem keep entries h =
      let mine = own term index shard_id entries in
      let sorted = sort_by_position mine in
      let size = length-sort_by_position mine in
      let (kept, whole, count, before) =
        taken_apart (length sorted - keep) sorted (omega arith) (sort-IsAscending mine) in
      let some_kept : (keep == 0) ≡ false = ground (arith, h) in
      (
        mine,
        take (length sorted - keep) sorted,
        kept,
        own-AreOwn term index shard_id entries,
        subst (λ l. Perm l mine) whole (sort-perm mine),
        rw some_kept refl,
        omega (arith, count, size),
        before,
      )
