-- ===== src/Ecam/Custom.antt =====
-- The command of a custom drink: the first part of `brew_custom`
-- (custom_components/delonghi_coffee/api.py), up to the checks that need the machine.
pub mod Laws
use delonghi_ha.Prelude.{
  ℕ, List, [], ◌∷◌, ◌++◌, Bool, true, false, ◌||◌, ◌==◌, String, str_eq, Option, none, some,
  if◌then◌else◌,
}
use delonghi_ha.Prelude.Int.{ℤ, pos, negsuc, between, low_byte, high_byte, to_bytes}
use delonghi_ha.Prelude.Dict.{lookup}
use delonghi_ha.Prelude.Raise.{Result, ok, raise, api, ◌>>=◌, ◌>>◌, require}
use delonghi_ha.Ecam.Catalog.{beverage_id, beverage_accessory}
use delonghi_ha.Ecam.Brew.{brew_frame}

pub record Custom : Type 0 where
  pub beverage : String
  pub coffee_qty : Option ℤ
  pub milk_qty : Option ℤ
  pub water_qty : Option ℤ
  pub taste : ℤ
  pub milk_froth : ℤ
  pub temperature : ℤ
  pub profile : ℤ

-- `_BEVERAGE_ACCESSORY.get(beverage, 0)`
unfoldable pub accessory_of : String → ℕ
unfolding lookup
accessory_of beverage = elim (lookup beverage beverage_accessory) [ none ↦ 0 | some acc ↦ acc ]

-- A 16-bit quantity, if it is given.
abbrev pub quantity : ℕ → Option ℤ → List ℕ
quantity pid none = []
quantity pid (some q) = pid ∷ high_byte q ∷ low_byte q ∷ []

abbrev pub is_espresso : String → Bool
is_espresso beverage = str_eq beverage "espresso" || str_eq beverage "doppio"

unfoldable pub custom_params : Custom → ℕ → Result (List ℕ)
custom_params c acc = do
  milk ← (if acc == 0 then ok [] else to_bytes (pos 28 ∷ pos acc ∷ pos 11 ∷ c.milk_froth ∷ []))
  let shots =
      if is_espresso c.beverage then 8 ∷ (if str_eq c.beverage "doppio" then 1 else 0) ∷ [] else []
  taste ← to_bytes (pos 2 ∷ c.taste ∷ [])
  tea ← (if str_eq c.beverage "tea" then to_bytes (pos 13 ∷ c.temperature ∷ []) else ok [])
  ok (
      milk
      ++ (shots
          ++ (quantity 1 c.coffee_qty
              ++ (quantity 15 c.water_qty
                  ++ (27 ∷ 1 ∷ (taste ++ (quantity 9 c.milk_qty ++ (tea ++ 39 ∷ 1 ∷ []))))))))

-- What follows the lookup of the drink: the command, and the recipe that stands in for it in the
-- accessory check.
unfoldable pub command_for : Option ℕ → Custom → Result (List ℕ × List ℕ)
command_for none c = raise api
command_for (some bev_id) c = do
  require (between 1 c.profile 5) api
  params ← custom_params c (accessory_of c.beverage)
  cmd ← brew_frame bev_id params c.profile
  fake_recipe ← to_bytes (
      pos 0xD0
      ∷ pos 0
      ∷ pos 0xA6
      ∷ pos 0xF0
      ∷ pos 1
      ∷ pos bev_id
      ∷ pos 28
      ∷ pos (accessory_of c.beverage)
      ∷ pos 0
      ∷ pos 0
      ∷ [])
  ok (cmd, fake_recipe)

unfoldable pub custom_command : Custom → Result (List ℕ × List ℕ)
custom_command c = command_for (beverage_id c.beverage) c
