-- ===== src/Prelude/Ordered.antt =====
-- The trait bound `Ord`, for the keys of ordered maps: numbers, pairs, and texts as byte lists.
use Prim.Native.Nat.{ℕ, compare, Ordering}
use Prim.Native.Nat.Ordering.{lt, eq, gt}
use mathlib.Core.Path.{◌≡◌, refl}
use mathlib.Core.Logic.{◌↔◌}
use mathlib.Core.Bool.{Bool, true, false}
use mathlib.Core.List.{List, [], ◌∷◌}
use native.Mathlib.Omega.{arith}

-- What the maps rely on: two keys compare as equal exactly when they are the same key.
pub record Ord {ℓ} (K : Type ℓ) : Type ℓ where
  pub cmp : K → K → Ordering
  pub cmp_refl : (a : K) → cmp a a ≡ eq
  pub eq_of_cmp : (a b : K) → cmp a b ≡ eq → a ≡ b

abbrev pub is_eq : Ordering → Bool
is_eq eq = true
is_eq _ = false

infix 50 ◌==◌
abbrev pub ◌==◌ {ℓ} : {K : Type ℓ} ⦃o : Ord K⦄ → K → K → Bool
◌==◌ ⦃o⦄ a b = is_eq (o.cmp a b)

module _ {ℓ} {K : Type ℓ} ⦃o : Ord K⦄ where
  pub eq_iff : (a b : K) → ((a == b) ≡ true) ↔ (a ≡ b)
  eq_iff a b = (λ h. o.eq_of_cmp a b (ground arith), λ h. ground (arith, o.cmp_refl a))

  pub eq_refl : (a : K) → (a == a) ≡ true
  eq_refl a = (eq_iff a a).1 refl

pub nat_cmp_refl : (a : ℕ) → compare a a ≡ eq
nat_cmp_refl a = ground arith

pub nat_eq_of_cmp : (a b : ℕ) → compare a b ≡ eq → a ≡ b
nat_eq_of_cmp a b h = ground arith

instance abbrev pub nat_ord : Ord ℕ
nat_ord = record { cmp = compare; cmp_refl = nat_cmp_refl; eq_of_cmp = nat_eq_of_cmp }

abbrev pub then_by : Ordering → Ordering → Ordering
then_by eq second = second
then_by first _ = first

module _ {ℓ κ} {A : Type ℓ} {B : Type κ} ⦃a : Ord A⦄ ⦃b : Ord B⦄ where
  -- tuples and derived orders compare field by field
  abbrev pub pair_cmp : A × B → A × B → Ordering
  pair_cmp x y = then_by (a.cmp x.0 y.0) (b.cmp x.1 y.1)

  pub pair_cmp_refl : (x : A × B) → pair_cmp x x ≡ eq
  pair_cmp_refl x = ground (arith, a.cmp_refl x.0, b.cmp_refl x.1)

  pub pair_eq_of_cmp : (x y : A × B) → pair_cmp x y ≡ eq → x ≡ y
  pair_eq_of_cmp x y h = ground (arith, a.eq_of_cmp x.0 y.0, b.eq_of_cmp x.1 y.1)

  instance abbrev pub pair_ord : Ord (A × B)
  pair_ord = record { cmp = pair_cmp; cmp_refl = pair_cmp_refl; eq_of_cmp = pair_eq_of_cmp }

module _ {ℓ} {A : Type ℓ} ⦃a : Ord A⦄ where
  -- slices compare lexicographically, a prefix first
  unfoldable pub list_cmp : List A → List A → Ordering
  list_cmp [] [] = eq
  list_cmp [] (y ∷ ys) = lt
  list_cmp (x ∷ xs) [] = gt
  list_cmp (x ∷ xs) (y ∷ ys) = then_by (a.cmp x y) (list_cmp xs ys)

  pub list_cmp_refl : (xs : List A) → list_cmp xs xs ≡ eq
  unfolding list_cmp
  list_cmp_refl [] = refl
  list_cmp_refl (x ∷ xs) = ground (arith, a.cmp_refl x, list_cmp_refl xs)

  pub list_eq_of_cmp : (xs ys : List A) → list_cmp xs ys ≡ eq → xs ≡ ys
  unfolding list_cmp
  list_eq_of_cmp [] [] h = refl
  list_eq_of_cmp [] (y ∷ ys) h = ground arith
  list_eq_of_cmp (x ∷ xs) [] h = ground arith
  list_eq_of_cmp (x ∷ xs) (y ∷ ys) h = ground (arith, a.eq_of_cmp x y, list_eq_of_cmp xs ys)

  instance abbrev pub list_ord : Ord (List A)
  list_ord = record { cmp = list_cmp; cmp_refl = list_cmp_refl; eq_of_cmp = list_eq_of_cmp }

-- A `String`: the list of its UTF-8 bytes.
abbrev pub Text : Type 0
Text = List ℕ
