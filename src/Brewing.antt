-- ===== src/Brewing.antt =====
-- The status of the machine and the checks before a drink: `get_status` and `_pre_brew_check`
-- (custom_components/delonghi_coffee/api.py).
pub mod Laws
pub mod Beverage
mod Examples
use delonghi_ha.Prelude.{
  ℕ, List, [], ◌∷◌, Bool, true, false, ◌||◌, ltb, String, str_eq, Option, none, some, length,
  get_or, if◌then◌else◌,
}
use delonghi_ha.Prelude.Raise.{
  Exception, auth, api, unsupported, value_error, index_error, key_error, transport, http, Result,
  ok, raise, ◌>>=◌, ◌>>◌, require,
}
use delonghi_ha.Ecam.Params.{get_recipe_accessory}
use delonghi_ha.Ecam.Monitor.{
  MachineState, off, turning_on, brewing, descaling, heating, rinsing, going_to_sleep, unknown,
  Alarm, Monitor, parse_monitor,
}

-- What the checks read of the status.
pub record Status : Type 0 where
  pub machine_state : MachineState
  pub alarms : List Alarm
  pub monitor_raw : List ℕ

abbrev pub no_status : Status
no_status = record { machine_state = unknown; alarms = []; monitor_raw = [] }

-- The value of the monitor property, if there is one, as base64 decodes it.
unfoldable pub decoded : Option (Result (List ℕ)) → Result Status
decoded none = ok no_status
decoded (some (raise e)) = raise e
decoded (some (ok raw)) =
    let m = parse_monitor raw in
    ok (record { machine_state = m.machine_state; alarms = m.alarms; monitor_raw = raw })

-- The handler: `(DeLonghiApiError, KeyError, ValueError)` give the defaults.
unfoldable pub or_default : Result Status → Result Status
or_default (ok s) = ok s
or_default (raise api) = ok no_status
or_default (raise unsupported) = ok no_status
or_default (raise key_error) = ok no_status
or_default (raise value_error) = ok no_status
or_default (raise auth) = raise auth
or_default (raise index_error) = raise index_error
or_default (raise transport) = raise transport
or_default (raise (http n)) = raise (http n)

-- `fetched` is what `get_properties` gives of the monitor.
unfoldable pub get_status : Result (Option (Result (List ℕ))) → Result Status
get_status fetched = or_default (fetched >>= decoded)

-- The states in which a drink is refused.
unfoldable pub is_busy : MachineState → Bool
is_busy off = true
is_busy brewing = true
is_busy descaling = true
is_busy rinsing = true
is_busy going_to_sleep = true
is_busy turning_on = true
is_busy heating = true
is_busy s = false

-- The set `blocking`.
abbrev pub blocking_names : List String
blocking_names =
    "Water Tank Empty" ∷ "Grounds Container Full" ∷ "Coffee Beans Empty" ∷ "Coffee Beans Empty 2"
    ∷ "Drip Tray Missing" ∷ "Water Tank Missing" ∷ "Grid Missing" ∷ "Hydraulic Problem"
    ∷ "Heater Probe Failure" ∷ "Infuser Motor Failure" ∷ "Steamer Probe Failure"
    ∷ "Bean Hopper Absent" ∷ []

unfoldable pub named : String → List String → Bool
named name [] = false
named name (n ∷ rest) = str_eq name n || named name rest

-- Whether `active_blocking` has a member.
unfoldable pub is_blocked : List Alarm → Bool
is_blocked [] = false
is_blocked (a ∷ rest) = named a.name blocking_names || is_blocked rest

-- `required_acc and required_acc > 1`, and no milk module in the monitor's payload, if there is one.
unfoldable pub lacks_milk : Option ℕ → List ℕ → Bool
lacks_milk none raw = false
lacks_milk (some required) [] = false
lacks_milk (some required) (b ∷ raw) =
    if ltb 1 required then ltb (get_or (b ∷ raw) 5 0) 2 else false

unfoldable pub check_status : Status → List ℕ → Result (Unit {0})
check_status s recipe =
    if is_busy s.machine_state
    then raise api
    else if is_blocked s.alarms
    then raise api
    else if lacks_milk (get_recipe_accessory recipe) s.monitor_raw
    then raise api
    else ok tt

-- `_pre_brew_check`, with the result of `get_status`.
unfoldable pub pre_brew_check : Result Status → List ℕ → Result (Unit {0})
pre_brew_check (ok s) recipe = check_status s recipe
pre_brew_check (raise auth) recipe = ok tt
pre_brew_check (raise api) recipe = ok tt
pre_brew_check (raise unsupported) recipe = ok tt
pre_brew_check (raise value_error) recipe = raise value_error
pre_brew_check (raise index_error) recipe = raise index_error
pre_brew_check (raise key_error) recipe = raise key_error
pre_brew_check (raise transport) recipe = raise transport
pre_brew_check (raise (http n)) recipe = raise (http n)
