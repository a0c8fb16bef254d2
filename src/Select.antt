-- ===== src/Select.antt =====
-- The choice of the profile: custom_components/delonghi_coffee/select.py.
pub mod Laws
mod Examples
use delonghi_ha.Prelude.{
  ℕ, zero, suc, List, [], ◌∷◌, Bool, true, false, ◌==◌, String, str_eq, Option, none, some,
  if◌then◌else◌, map,
}
use delonghi_ha.Prelude.Int.{pos}
use delonghi_ha.Prelude.Raise.{Result, ok, raise, ◌>>=◌}
use delonghi_ha.Counters.{CounterValue, as_int}
use delonghi_ha.Sensors.Counter.{positive}
use delonghi_ha.Ecam.Command.{profile_command}

-- `data["profiles"]`: numbers, each with its name if there is one.
abbrev pub Profiles : Type 0
Profiles = List (ℕ × Option String)

-- `profiles.get(pid, {}).get("name")`
unfoldable pub name_of : ℕ → Profiles → Option String
name_of pid [] = none
name_of pid ((p, name) ∷ profiles) = if pid == p then name else name_of pid profiles

-- `numbered` is `f"Profile {i}"`.
module _ (numbered : ℕ → String) where
  abbrev pub or_number : ℕ → Option String → String
  or_number pid none = numbered pid
  or_number pid (some name) = name

  unfoldable pub profile_name : Profiles → ℕ → String
  profile_name profiles pid = or_number pid (name_of pid profiles)

  -- `active`: what was selected, the cloud's number, or the monitor's.
  abbrev pub first_profile : Option ℕ → Option ℕ → Option ℕ → Option ℕ
  first_profile (some p) cloud monitor = some p
  first_profile none (some p) monitor = some p
  first_profile none none monitor = monitor

  abbrev pub name_if : Profiles → Option ℕ → Option String
  name_if profiles none = none
  name_if profiles (some pid) = some (profile_name profiles pid)

  unfoldable pub current_option : Profiles → Option ℕ → CounterValue → CounterValue → Option String
  current_option profiles selected cloud monitor =
      name_if profiles
        (first_profile selected (positive (as_int cloud)) (positive (as_int monitor)))

  -- The first profile with the name, and "Profile 1" to "Profile 4".
  abbrev pub has_name : Option String → String → Bool
  has_name none option = false
  has_name (some name) option = str_eq name option

  unfoldable pub by_name : Profiles → String → Option ℕ
  by_name [] option = none
  by_name ((p, name) ∷ profiles) option =
      let later = by_name profiles option in if has_name name option then some p else later

  unfoldable pub by_number : List ℕ → String → Option ℕ
  by_number [] option = none
  by_number (i ∷ numbers) option =
      let later = by_number numbers option in if str_eq option (numbered i) then some i else later

  abbrev pub or_by_number : Option ℕ → String → Option ℕ
  or_by_number (some p) option = some p
  or_by_number none option = by_number (1 ∷ 2 ∷ 3 ∷ 4 ∷ []) option

  unfoldable pub find_profile : Profiles → String → Option ℕ
  find_profile profiles option = or_by_number (by_name profiles option) option

  -- `async_select_option`, with `selected_profile`; `sent` is what `send_command` gives for a packet.
  abbrev pub settle_selection : ℕ → Option ℕ → Result Bool → Result (Unit {0}) × Option ℕ
  settle_selection pid selected (ok true) = (ok tt, some pid)
  settle_selection pid selected (ok false) = (ok tt, selected)
  settle_selection pid selected (raise e) = (raise e, selected)

  abbrev pub select_found :
      (List ℕ → Result Bool) → Option ℕ → Option ℕ → Result (Unit {0}) × Option ℕ
  select_found sent none selected = (ok tt, selected)
  select_found sent (some pid) selected =
      settle_selection pid selected (profile_command (pos pid) >>= sent)

  unfoldable pub async_select_option :
      (List ℕ → Result Bool) → Profiles → String → Option ℕ → Result (Unit {0}) × Option ℕ
  async_select_option sent profiles option selected =
      select_found sent (find_profile profiles option) selected
