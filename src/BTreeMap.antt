-- ===== src/BTreeMap.antt =====
-- `std::collections::BTreeMap` and `BTreeSet`: an association list in the order of its keys.
pub mod Laws
use eventfs.Prelude.{
  ℕ, zero, suc, ◌+◌, ◌≡◌, Bool, true, false, not, ◌&&◌, ◌||◌, Option, none, some, List, [], ◌∷◌,
  map, length, Ord, ◌==◌, is_some, if◌then◌else◌,
}
use Prim.Native.Nat.Ordering.{lt, eq, gt}

abbrev pub BTreeMap {ℓ κ} : Type ℓ → Type κ → Type (ℓ ⊔ κ)
BTreeMap K V = List (K × V)

abbrev pub BTreeSet {ℓ} : Type ℓ → Type ℓ
BTreeSet K = BTreeMap K (Unit {0})

module _ {ℓ κ} {K : Type ℓ} {V : Type κ} where
  abbrev pub keys : BTreeMap K V → List K
  keys = map (λ e. e.0)

  abbrev pub values : BTreeMap K V → List V
  values = map (λ e. e.1)

module _ {ℓ κ} {K : Type ℓ} {V : Type κ} ⦃o : Ord K⦄ where
  unfoldable pub get : K → BTreeMap K V → Option V
  get k [] = none
  get k ((j, v) ∷ m) = if k == j then some v else get k m

  unfoldable pub insert : K → V → BTreeMap K V → BTreeMap K V
  insert k v [] = (k, v) ∷ []
  insert k v ((j, w) ∷ m) = elim (o.cmp k j) [
    | lt ↦ (k, v) ∷ (j, w) ∷ m
    | eq ↦ (k, v) ∷ m
    | gt ↦ (j, w) ∷ insert k v m
  ]

  unfoldable pub remove : K → BTreeMap K V → BTreeMap K V
  remove k [] = []
  remove k ((j, w) ∷ m) = let rest = remove k m in if k == j then rest else (j, w) ∷ rest

  abbrev pub contains_key : K → BTreeMap K V → Bool
  contains_key k m = is_some (get k m)

module _ {ℓ κ} {K : Type ℓ} {V : Type κ} where
  -- `retain`, with a test on the key
  unfoldable pub retain : (K → Bool) → BTreeMap K V → BTreeMap K V
  retain p [] = []
  retain p ((j, w) ∷ m) = let rest = retain p m in if p j then (j, w) ∷ rest else rest

  -- `values().any(p)`
  unfoldable pub any_value : (V → Bool) → BTreeMap K V → Bool
  any_value p [] = false
  any_value p ((j, w) ∷ m) = p w || any_value p m

  -- `values().filter(p).count()`
  unfoldable pub count_values : (V → Bool) → BTreeMap K V → ℕ
  count_values p [] = 0
  count_values p ((j, w) ∷ m) = (if p w then 1 else 0) + count_values p m
