-- ===== src/Brewing/Beverage/Laws.antt =====
-- What a brew sends.
use mathlib.Core.Path.{subst}
use delonghi_ha.Prelude.{
  ℕ, ◌≤◌, List, All, Bool, true, false, not, ltb, String, Option, none, some, get_elem?, length,
  ◌≡◌, refl, ap, ◌⊎◌, arith,
}
use delonghi_ha.Prelude.Int.{ℤ, pos, IsByte}
use delonghi_ha.Prelude.Dict.{Dict}
use delonghi_ha.Prelude.Raise.{
  auth, api, unsupported, value_error, index_error, key_error, transport, http, Result, ok, raise,
  require, >>=-ok,
}
use delonghi_ha.Ecam.Frame.{IsFrame}
use delonghi_ha.Ecam.Brew.Recipe.{recipe_to_brew_command-IsFrame}
use delonghi_ha.Brewing.{get_status, pre_brew_check}
use delonghi_ha.Brewing.Beverage.Choice.{Chosen, choose_recipe-Chosen}
use delonghi_ha.Brewing.Beverage.{
  choose_recipe, found, decoded_or_api, pinged_or_not, is_iced, is_cold_brew, BrewCalls,
  brew_command,
}

found-some : (o : Option String) (value : String) → found o ≡ ok value → o ≡ some value
unfolding found
found-some none value h = cc
found-some (some v) value h = ap some (cc h)

decoded_or_api-ok :
    (r : Result (List ℕ)) (recipe : List ℕ) → decoded_or_api r ≡ ok recipe → r ≡ ok recipe
unfolding decoded_or_api
decoded_or_api-ok (ok given) recipe h = h
decoded_or_api-ok (raise value_error) recipe h = cc
decoded_or_api-ok (raise auth) recipe h = cc
decoded_or_api-ok (raise api) recipe h = cc
decoded_or_api-ok (raise unsupported) recipe h = cc
decoded_or_api-ok (raise index_error) recipe h = cc
decoded_or_api-ok (raise key_error) recipe h = cc
decoded_or_api-ok (raise transport) recipe h = cc
decoded_or_api-ok (raise (http n)) recipe h = cc

require-long : (n : ℕ) (u : Unit {0}) → require (not (ltb n 8)) api ≡ ok u → 8 ≤ n
require-long n u h = long (ltb n 8) refl h
  where
    long : (b : Bool) → ltb n 8 ≡ b → require (not b) api ≡ ok u → 8 ≤ n
    long true e k = absurd (subst Raised k tt)
      where
        Raised : Result (Unit {0}) → Type 0
        Raised (ok x) = ⊥
        Raised (raise x) = Unit {0}
    long false e k = ground (arith, e)

-- Where the command of a brew comes from.
pub record Brews (c : BrewCalls) (key : String) (shown : String) (cmd : List ℕ) : Type 0 where
  pub props : Dict (Option String)
  pub value : String
  pub recipe : List ℕ
  pub fetched : c.props ≡ ok props
  pub chosen : Chosen key shown props value
  pub decoded : c.decode value ≡ ok recipe
  pub long : 8 ≤ length recipe
  pub checked : pre_brew_check (get_status c.monitor) recipe ≡ ok tt
  pub sound : ((get_elem? recipe 0 ≡ some 0x0D) × (cmd ≡ recipe)) ⊎ IsFrame cmd

-- A brew gives a command only from a property whose value is a text, not empty and no JSON, that base64
-- decodes to 8 bytes or more. It is the first one with "_rec_{profile}_{key}" or "_{profile}_rec_{key}" in
-- its name, or, if there is none, the first one whose name ends with "_rec_{key}" or has such a part of
-- another profile; so the name may go on after the key, and the recipe be that of a longer key. The checks
-- of the machine's status must pass; and the command is a well-formed frame, or the recipe itself if it is
-- a command already. What base64 decodes must be bytes.
pub brew_command-Brews :
    (c : BrewCalls) (key : String) (profile : ℤ) (shown : String) (cmd : List ℕ)
    → ((value : String) (recipe : List ℕ) → c.decode value ≡ ok recipe → All IsByte recipe)
    → brew_command c key profile shown ≡ ok cmd
    → Brews c key shown cmd
unfolding brew_command
brew_command-Brews c key profile shown cmd bytes e =
    let (props, e1, fetched) = >>=-ok _ c.props e in
    let (value, e2, chosen) = >>=-ok _ (found (choose_recipe key shown props)) e1 in
    let (recipe, e3, decoded) = >>=-ok _ (decoded_or_api (c.decode value)) e2 in
    let (u, e4, long) = >>=-ok _ (require (not (ltb (length recipe) 8)) api) e3 in
    let (v, e5, checked) = >>=-ok _ (pre_brew_check (get_status c.monitor) recipe) e4 in
    let (w, e6, pinged) = >>=-ok _ (pinged_or_not c.ping) e5 in
    let read = decoded_or_api-ok (c.decode value) recipe decoded in
    record {
      props = props;
      value = value;
      recipe = recipe;
      fetched = fetched;
      chosen =
          choose_recipe-Chosen key shown props value
            (found-some (choose_recipe key shown props) value chosen);
      decoded = read;
      long = require-long (length recipe) u long;
      checked = checked;
      sound =
          recipe_to_brew_command-IsFrame recipe (is_iced key) (is_cold_brew key) (pos 1) profile cmd
            (bytes value recipe read) e6;
    }
