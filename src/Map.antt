-- ===== src/Map.antt =====
-- A Go map as an association list with one entry for each key. The order of the entries stands for
-- the order in which `range` visits them, which Go leaves open: `get` and `count` do not depend on
-- it.
pub mod Laws
pub mod Entries
pub mod Keyed
pub mod Distinct
use garam_agent_operator.Prelude.{
  ℕ, suc, Bool, Option, none, some, List, [], ◌∷◌, Eq, ◌==◌, if◌then◌else◌,
}

abbrev pub Map : Type 0 → Type 0 → Type 0
Map K V = List (K × V)

module _ {K V : Type 0} ⦃e : Eq K⦄ where
  -- `v, ok := m[k]`
  unfoldable pub get : K → Map K V → Option V
  get k [] = none
  get k ((j, v) ∷ m) = if j == k then some v else get k m

  -- `m[k] = v`
  unfoldable pub put : K → V → Map K V → Map K V
  put k v [] = (k, v) ∷ []
  put k v ((j, w) ∷ m) = if j == k then (j, v) ∷ m else (j, w) ∷ put k v m

  -- `m[k]`, with the zero value of the type where the key is missing
  abbrev pub get_or : V → K → Map K V → V
  get_or zero_value k m = elim (get k m) [ none ↦ zero_value | some v ↦ v ]

module _ {K V : Type 0} where
  -- The first value that a `range` over the map finds with the property.
  unfoldable pub find_value : (V → Bool) → Map K V → Option V
  find_value p [] = none
  find_value p ((k, v) ∷ m) = if p v then some v else find_value p m

  -- The last value that a `range` over the map meets with the property.
  unfoldable pub last_value : (V → Bool) → Map K V → Option V
  last_value p [] = none
  last_value p ((k, v) ∷ m) = elim (last_value p m) [
    | some w ↦ some w
    | none ↦ if p v then some v else none
  ]

  -- How many values have the property.
  unfoldable pub count : (V → Bool) → Map K V → ℕ
  count p [] = 0
  count p ((k, v) ∷ m) = let rest = count p m in if p v then suc rest else rest

  -- `delete` of each key without the property, which a `range` over the map meets.
  unfoldable pub retain : (K → Bool) → Map K V → Map K V
  retain p [] = []
  retain p ((k, v) ∷ m) = if p k then (k, v) ∷ retain p m else retain p m
