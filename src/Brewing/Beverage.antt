-- ===== src/Brewing/Beverage.antt =====
-- `brew_beverage` (custom_components/delonghi_coffee/api.py): the choice of the stored recipe, the checks,
-- and the command that is sent.
pub mod Choice
pub mod Laws
use delonghi_ha.Prelude.{
  ℕ, List, [], ◌∷◌, Bool, true, false, not, ◌&&◌, ◌||◌, ltb, String, str_eq, Option, none, some,
  length, if◌then◌else◌,
}
use text.Mathlib.Text.{starts_with}
use delonghi_ha.Prelude.Int.{ℤ, pos}
use delonghi_ha.Prelude.Dict.{Dict}
use delonghi_ha.Prelude.Raise.{
  Exception, auth, api, unsupported, value_error, index_error, key_error, transport, http, Result,
  ok, raise, ◌>>=◌, ◌>>◌, require,
}
use delonghi_ha.Ecam.Brew.{recipe_to_brew_command}
use delonghi_ha.Switch.Commands.{suppress}
use delonghi_ha.Brewing.{get_status, pre_brew_check}

-- An f-string of parts.
unfoldable pub joined : String → String → String
joined String.[] tail = tail
joined (String.◌∷◌ c rest) tail = String.◌∷◌ c (joined rest tail)

-- `needle in text`
unfoldable pub contains : String → String → Bool
contains needle String.[] = str_eq needle ""
contains needle (String.◌∷◌ c rest) =
    let later = contains needle rest in starts_with (String.◌∷◌ c rest) needle || later

unfoldable pub ends_with : String → String → Bool
ends_with needle String.[] = str_eq needle ""
ends_with needle (String.◌∷◌ c rest) =
    let later = ends_with needle rest in str_eq (String.◌∷◌ c rest) needle || later

-- A value that is a text, not empty and not JSON. A value that is not a text is none.
unfoldable pub is_recipe : Option String → Bool
is_recipe none = false
is_recipe (some value) = not (str_eq value "") && not (starts_with value "{")

-- The two targets for a profile, given as a text.
unfoldable pub of_profile : String → String → String → Bool
of_profile key profile name =
    contains (joined "_rec_" (joined profile (joined "_" key))) name
    || contains (joined "_" (joined profile (joined "_rec_" key))) name

unfoldable pub of_others : String → String → String → List String → Bool
of_others key profile name [] = false
of_others key profile name (p ∷ rest) =
    (not (str_eq p profile) && of_profile key p name) || of_others key profile name rest

abbrev pub profiles : List String
profiles = "1" ∷ "2" ∷ "3" ∷ "4" ∷ "5" ∷ []

unfoldable pub is_fallback : String → String → String → Bool
is_fallback key profile name =
    ends_with (joined "_rec_" key) name || of_others key profile name profiles

-- The first property whose value is a recipe and whose name passes the test.
unfoldable pub first_recipe : (String → Bool) → Dict (Option String) → Option String
first_recipe test [] = none
first_recipe test ((name, value) ∷ props) =
    if is_recipe value && test name then value else first_recipe test props

unfoldable pub or_else : Option String → Option String → Option String
or_else (some value) other = some value
or_else none other = other

unfoldable pub choose_recipe : String → String → Dict (Option String) → Option String
choose_recipe key profile props =
    or_else (first_recipe (of_profile key profile) props)
      (first_recipe (is_fallback key profile) props)

-- A recipe that is not found, or that base64 cannot decode, is a DeLonghiApiError.
unfoldable pub found : Option String → Result String
found none = raise api
found (some value) = ok value

unfoldable pub decoded_or_api : Result (List ℕ) → Result (List ℕ)
decoded_or_api (ok recipe) = ok recipe
decoded_or_api (raise value_error) = raise api
decoded_or_api (raise auth) = raise auth
decoded_or_api (raise api) = raise api
decoded_or_api (raise unsupported) = raise unsupported
decoded_or_api (raise index_error) = raise index_error
decoded_or_api (raise key_error) = raise key_error
decoded_or_api (raise transport) = raise transport
decoded_or_api (raise (http n)) = raise (http n)

unfoldable pub pinged_or_not : Result Bool → Result (Unit {0})
pinged_or_not (ok b) = ok tt
pinged_or_not (raise e) = suppress (raise e)

unfoldable pub is_iced : String → Bool
is_iced key =
    starts_with key "i_"
    || (starts_with key "mi_"
        || (starts_with key "over_ice" || (starts_with key "mug_i_" || str_eq key "brew_over_ice")))

unfoldable pub is_cold_brew : String → Bool
is_cold_brew key = contains "_cb_" key

-- What the calls give: all properties, base64, the monitor for the checks, and the ping.
pub record BrewCalls : Type 0 where
  pub props : Result (Dict (Option String))
  pub decode : String → Result (List ℕ)
  pub monitor : Result (Option (Result (List ℕ)))
  pub ping : Result Bool

-- The command that `send_command` gets. The profile is given as a text too.
unfoldable pub brew_command : BrewCalls → String → ℤ → String → Result (List ℕ)
brew_command c key profile shown = do
  props ← c.props
  value ← found (choose_recipe key shown props)
  recipe ← decoded_or_api (c.decode value)
  require (not (ltb (length recipe) 8)) api
  pre_brew_check (get_status c.monitor) recipe
  pinged_or_not c.ping
  recipe_to_brew_command recipe (is_iced key) (is_cold_brew key) (pos 1) profile

unfoldable pub brew_beverage :
    BrewCalls → (List ℕ → Result Bool) → String → ℤ → String → Result Bool
brew_beverage c send key profile shown = brew_command c key profile shown >>= send
