-- ===== src/Map.antt =====
-- The standard library's maps (`BTreeMap`, `HashMap`) as association lists in key order.
-- The program never depends on the order of a `HashMap`, so the same list models it.
pub mod Order
pub mod Laws
use mero_tee.Prelude.{
  Bool, true, false, Option, none, some, List, [], ◌∷◌, Ordering, if◌then◌else◌, map,
}
use Order.{Ord}

abbrev pub Map {ℓ κ} : Type ℓ → Type κ → Type (ℓ ⊔ κ)
Map K V = List (K × V)

module _ {ℓ κ} {K : Type ℓ} {V : Type κ} ⦃o : Ord K⦄ where
  -- `map.get(key)`
  unfoldable pub get : Map K V → K → Option V
  get [] k = none
  get ((j, v) ∷ m) k = elim (o.cmp k j) [ Ordering.eq ↦ some v | _ ↦ get m k ]

  -- `map.contains_key(key)`
  unfoldable pub contains_key : Map K V → K → Bool
  contains_key m k = elim (get m k) [ none ↦ false | some v ↦ true ]

  -- `map.insert(key, value)`; what it returns is `get` of the map before.
  unfoldable pub insert : Map K V → K → V → Map K V
  insert [] k v = (k, v) ∷ []
  insert ((j, w) ∷ m) k v = elim (o.cmp k j) [
    | Ordering.lt ↦ (k, v) ∷ (j, w) ∷ m
    | Ordering.eq ↦ (k, v) ∷ m
    | Ordering.gt ↦ (j, w) ∷ insert m k v
  ]

-- `map.retain(|_, v| keep(v))`
unfoldable pub retain {ℓ κ} : {K : Type ℓ} {V : Type κ} → (V → Bool) → Map K V → Map K V
retain keep [] = []
retain keep ((k, v) ∷ m) = let rest = retain keep m in if keep v then (k, v) ∷ rest else rest
