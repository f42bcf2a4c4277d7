-- ===== src/Placement/Sorting.antt =====
-- Lists without repetitions, and `sort` and `dedup`.
use eventfs.Prelude.{
  ℕ, suc, ◌+◌, ◌≡◌, refl, ap, ◌∙◌, false, ◌||◌, List, [], ◌∷◌, ◌++◌, nat_ord, leb, length, ◌==◌,
  eq_iff, if◌then◌else◌, Bool-cases, inl, inr, arith,
}
use eventfs.Placement.{contains}
use eventfs.Placement.Shards.{insert_sorted, sort, dedup}

contains-insert_sorted :
    (s x : ℕ) (l : List ℕ) → contains s (insert_sorted x l) ≡ (x == s || contains s l)
unfolding insert_sorted contains
contains-insert_sorted s x [] = refl
contains-insert_sorted s x (y ∷ l) = ground (arith, contains-insert_sorted s x l)

pub contains-sort : (s : ℕ) (l : List ℕ) → contains s (sort l) ≡ contains s l
unfolding sort contains
contains-sort s [] = refl
contains-sort s (x ∷ l) = ground (arith, contains-sort s l, contains-insert_sorted s x (sort l))

pub contains-dedup : (s : ℕ) (l : List ℕ) → contains s (dedup l) ≡ contains s l
unfolding dedup contains
contains-dedup s [] = refl
contains-dedup s (x ∷ []) = refl
contains-dedup s (x ∷ y ∷ l) = ground (arith, contains-dedup s (y ∷ l), eq_iff x y)

length-insert_sorted : (x : ℕ) (l : List ℕ) → length (insert_sorted x l) ≡ suc (length l)
unfolding insert_sorted
length-insert_sorted x [] = refl
length-insert_sorted x (y ∷ l) = ground (arith, length-insert_sorted x l)

pub length-sort : (l : List ℕ) → length (sort l) ≡ length l
unfolding sort
length-sort [] = refl
length-sort (x ∷ l) = length-insert_sorted x (sort l) ∙ ap suc (length-sort l)

pub contains-append : (s : ℕ) (a b : List ℕ) → contains s (a ++ b) ≡ (contains s a || contains s b)
unfolding contains
contains-append s [] b = refl
contains-append s (x ∷ a) b = ground (arith, contains-append s a b)

-- No number stands twice.
unfoldable pub IsDistinct : List ℕ → Type 0
IsDistinct [] = Unit
IsDistinct (x ∷ l) = (contains x l ≡ false) × IsDistinct l

-- How often a number stands in a list.
unfoldable pub occurrences : ℕ → List ℕ → ℕ
occurrences s [] = 0
occurrences s (x ∷ l) = (if x == s then 1 else 0) + occurrences s l

pub occurrences-append :
    (s : ℕ) (a b : List ℕ) → occurrences s (a ++ b) ≡ occurrences s a + occurrences s b
unfolding occurrences
occurrences-append s [] b = omega arith
occurrences-append s (x ∷ a) b = omega (arith, occurrences-append s a b)

occurrences-none : (s : ℕ) (l : List ℕ) → contains s l ≡ false → occurrences s l ≡ 0
unfolding occurrences contains
occurrences-none s [] h = refl
occurrences-none s (x ∷ l) h = ground (arith, occurrences-none s l)

pub occurrences-IsDistinct :
    (s : ℕ) (l : List ℕ) → IsDistinct l → occurrences s l ≡ (if contains s l then 1 else 0)
unfolding occurrences contains IsDistinct
occurrences-IsDistinct s [] d = refl
occurrences-IsDistinct s (x ∷ l) (fresh, d) =
    ground (arith, occurrences-IsDistinct s l d, occurrences-none s l, eq_iff x s)

-- The parts of a list without repetitions have none, and nothing in common.
pub IsDistinct-append : (a b : List ℕ) → IsDistinct (a ++ b) → IsDistinct a × IsDistinct b
unfolding IsDistinct
IsDistinct-append [] b d = (tt, d)
IsDistinct-append (x ∷ a) b (fresh, d) =
    let (da, db) = IsDistinct-append a b d in
    (((ground (arith, fresh, contains-append x a b)), da), db)

IsDistinct-insert_sorted :
    (x : ℕ) (l : List ℕ) → contains x l ≡ false → IsDistinct l → IsDistinct (insert_sorted x l)
unfolding IsDistinct insert_sorted contains
IsDistinct-insert_sorted x [] h d = (refl, tt)
IsDistinct-insert_sorted x (y ∷ l) h (fresh, d) = elim (Bool-cases (leb x y)) [
  | inl front ↦ rw (front, IsDistinct) (h, (fresh, d))
  | inr after ↦
      rw (after, IsDistinct)
        (
          ground (arith, h, fresh, contains-insert_sorted y x l, eq_iff x y, eq_iff y x),
          IsDistinct-insert_sorted x l (ground (arith, h)) d,
        )
]

pub IsDistinct-sort : (l : List ℕ) → IsDistinct l → IsDistinct (sort l)
unfolding IsDistinct sort
IsDistinct-sort [] d = tt
IsDistinct-sort (x ∷ l) (fresh, d) =
    IsDistinct-insert_sorted x (sort l) (contains-sort x l ∙ fresh) (IsDistinct-sort l d)
