-- ===== src/Ecam/Params.antt =====
-- The parameter list of a recipe and the two loops over it (`_get_recipe_accessory` and the copying
-- loop of `_recipe_to_brew_command`, custom_components/delonghi_coffee/api.py). The index `i` of the
-- source is here the rest of the list from `i` on.
pub mod Laws
use delonghi_ha.Prelude.{
  ℕ, ◌+◌, ◌-◌, List, [], ◌∷◌, ◌++◌, Bool, true, false, ◌||◌, ◌==◌, Option, none, some, length, take,
  drop, if◌then◌else◌,
}

-- `pid in _BIG_PARAMS`: COFFEE, MILK, HOT_WATER
abbrev pub is_big : ℕ → Bool
is_big pid = pid == 1 || pid == 9 || pid == 15

-- `data[start:-stop]`
abbrev pub slice : ℕ → ℕ → List ℕ → List ℕ
slice start stop xs = take (length xs - stop - start) (drop start xs)

-- The loop of `_get_recipe_accessory`.
unfoldable pub find_accessory : List ℕ → Option ℕ
find_accessory [] = none
find_accessory (pid ∷ []) = none
find_accessory (pid ∷ v ∷ []) = if pid == 28 then some v else none
find_accessory (pid ∷ v ∷ w ∷ rest) =
    let after_big = find_accessory rest in
    let after_small = find_accessory (w ∷ rest) in
    if pid == 28 then some v else if is_big pid then after_big else after_small

unfoldable pub get_recipe_accessory : List ℕ → Option ℕ
unfolding find_accessory
get_recipe_accessory recipe = find_accessory (slice 6 2 recipe)

module _ (excluded : ℕ → Bool) where
  -- `if pid not in exclude: brew_params += chunk`
  abbrev pub kept : ℕ → List ℕ → List ℕ
  kept pid chunk = if excluded pid then [] else chunk

  -- The loop of `_recipe_to_brew_command`.
  unfoldable pub copy_params : List ℕ → List ℕ
  copy_params [] = []
  copy_params (pid ∷ []) = []
  copy_params (pid ∷ v ∷ []) = kept pid (pid ∷ v ∷ [])
  copy_params (pid ∷ v ∷ w ∷ rest) =
      let after_big = kept pid (pid ∷ v ∷ w ∷ []) ++ copy_params rest in
      let after_small = kept pid (pid ∷ v ∷ []) ++ copy_params (w ∷ rest) in
      if is_big pid then after_big else after_small
