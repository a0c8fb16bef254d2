-- ===== src/Brewing/Examples.antt =====
-- Checks against concrete payloads.
use delonghi_ha.Prelude.{ℕ, List, [], ◌∷◌, String, Option, none, some, ◌≡◌, refl, arith, All}
use mathlib.Core.Path.{subst}
use delonghi_ha.Prelude.Int.{pos, IsByte}
use delonghi_ha.Prelude.Dict.{Dict}
use delonghi_ha.Prelude.Raise.{Result, ok, raise, api}
use delonghi_ha.Brewing.{
  decoded, or_default, check_status, is_blocked, get_status, is_busy, lacks_milk, pre_brew_check,
}
use delonghi_ha.Brewing.Beverage.{
  joined, contains, ends_with, is_recipe, of_profile, of_others, is_fallback, first_recipe, or_else,
  choose_recipe, found, decoded_or_api, pinged_or_not, is_iced, is_cold_brew, BrewCalls,
  brew_command,
}
use delonghi_ha.Brewing.Beverage.Laws.{Brews, brew_command-Brews}
use delonghi_ha.Switch.Commands.{suppress}
use delonghi_ha.Ecam.Brew.{recipe_to_brew_command, convert, closing, brew_frame}
use delonghi_ha.Ecam.Params.{get_recipe_accessory, copy_params}
use delonghi_ha.Ecam.Frame.{seal}
use delonghi_ha.Ecam.Crc.{crc16}

-- A ready machine with no accessory, and a cappuccino, which asks for the milk module.
abbrev ready_payload : List ℕ
ready_payload = 0xD0 ∷ 18 ∷ 0x75 ∷ 0x0F ∷ 1 ∷ 0 ∷ 0 ∷ 0 ∷ 0 ∷ 7 ∷ 0 ∷ 0 ∷ 0 ∷ 0 ∷ []

abbrev cappuccino : List ℕ
cappuccino = 0xD0 ∷ 0 ∷ 0xA6 ∷ 0xF0 ∷ 1 ∷ 7 ∷ 28 ∷ 2 ∷ 0 ∷ 0 ∷ []

-- Two recipes of profile 2, the longer name first.
abbrev recipes : Dict (Option String)
recipes = ("d1_rec_2_espresso_lungo", some "lungo") ∷ ("d2_rec_2_espresso", some "espresso") ∷ []

abbrev brew_calls : BrewCalls
brew_calls = record {
  props = ok recipes;
  decode = λ value. ok cappuccino;
  monitor = ok none;
  ping = raise api;
}

-- The recipe of another drink is chosen, since its name contains the target.
wrong_recipe : choose_recipe "espresso" "2" recipes ≡ some "lungo"
unfolding choose_recipe or_else first_recipe is_recipe of_profile joined contains
wrong_recipe = refl

-- An unknown drink has no recipe.
no_recipe : choose_recipe "tea" "2" recipes ≡ none
unfolding choose_recipe or_else first_recipe is_recipe of_profile of_others is_fallback joined
    contains ends_with
no_recipe = refl

abbrev brewed : List ℕ
brewed = 13 ∷ 14 ∷ 131 ∷ 240 ∷ 7 ∷ 3 ∷ 28 ∷ 2 ∷ 27 ∷ 1 ∷ 39 ∷ 1 ∷ 10 ∷ 71 ∷ 150 ∷ []

brew_test : brew_command brew_calls "espresso" (pos 2) "2" ≡ ok brewed
unfolding brew_command found choose_recipe or_else first_recipe is_recipe of_profile joined contains
    decoded_or_api get_status decoded or_default pre_brew_check check_status is_busy is_blocked
    lacks_milk get_recipe_accessory pinged_or_not suppress is_iced is_cold_brew
    recipe_to_brew_command convert closing brew_frame copy_params seal crc16
brew_test = refl

abbrev BytesOf : Result (List ℕ) → Type 0
BytesOf (ok recipe) = All IsByte recipe
BytesOf (raise e) = Unit {0}

brew_command-Brews_example : Brews brew_calls "espresso" "2" brewed
brew_command-Brews_example =
    brew_command-Brews brew_calls "espresso" (pos 2) "2" brewed
      (λ value recipe e. subst (λ (r : Result (List ℕ)). BytesOf r) e (omega arith)) brew_test
