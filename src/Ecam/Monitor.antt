-- ===== src/Ecam/Monitor.antt =====
-- The monitor payload: `_parse_monitor_v2` (custom_components/delonghi_coffee/api.py) with the tables
-- MACHINE_STATES and ALARMS (custom_components/delonghi_coffee/const.py).
pub mod Laws
use delonghi_ha.Prelude.{
  ℕ, ◌*◌, ◌^◌, bit_and, bit_or, List, [], ◌∷◌, Bool, true, false, ◌==◌, ltb, String, Option, none,
  some, length, get_or, if◌then◌else◌,
}

-- The names of MACHINE_STATES; `unknown` is "Unknown", and `other n` the text "Unknown (n)".
pub data MachineState : Type 0 where
  off turning_on idle brewing error descaling heating ready rinsing going_to_sleep : MachineState
  preparing_milk dispensing_hot_water cleaning_milk_system rinsing_water_filter : MachineState
  preparing_chocolate preparing_milk_alt unknown : MachineState
  other : ℕ → MachineState

abbrev pub machine_states : List (ℕ × MachineState)
machine_states =
    (0, off)
    ∷ (1, turning_on)
    ∷ (2, idle)
    ∷ (3, brewing)
    ∷ (4, error)
    ∷ (5, descaling)
    ∷ (6, heating)
    ∷ (7, ready)
    ∷ (8, rinsing)
    ∷ (9, going_to_sleep)
    ∷ (10, preparing_milk)
    ∷ (11, dispensing_hot_water)
    ∷ (12, cleaning_milk_system)
    ∷ (14, rinsing_water_filter)
    ∷ (16, preparing_chocolate)
    ∷ (17, preparing_milk_alt)
    ∷ []

-- `MACHINE_STATES.get(state_val, f"Unknown ({state_val})")`
unfoldable pub state_in : List (ℕ × MachineState) → ℕ → MachineState
state_in [] code = other code
state_in ((n, s) ∷ rest) code = if n == code then s else state_in rest code

pub record Alarm : Type 0 where
  pub bit : ℕ
  pub name : String
  pub blocking : Bool
  pub inverted : Bool

abbrev pub alarm : ℕ → String → Bool → Bool → Alarm
alarm bit name blocking inverted = record {
  bit = bit;
  name = name;
  blocking = blocking;
  inverted = inverted;
}

-- ALARMS without the icons: bit, name, blocking, inverted.
abbrev pub all_alarms : List Alarm
all_alarms =
    alarm 0 "Water Tank Empty" true false
    ∷ alarm 1 "Grounds Container Full" true false
    ∷ alarm 2 "Descale Needed" false false
    ∷ alarm 3 "Replace Water Filter" false false
    ∷ alarm 4 "Coffee Ground Too Fine" false false
    ∷ alarm 5 "Coffee Beans Empty" false false
    ∷ alarm 6 "Machine Service Required" true false
    ∷ alarm 7 "Heater Probe Failure" true false
    ∷ alarm 8 "Too Much Coffee" false false
    ∷ alarm 9 "Infuser Motor Failure" true false
    ∷ alarm 10 "Steamer Probe Failure" true false
    ∷ alarm 11 "Drip Tray Missing" true false
    ∷ alarm 12 "Hydraulic Problem" true false
    ∷ alarm 13 "Water Tank Missing" true true
    ∷ alarm 14 "Clean Milk Knob" false false
    ∷ alarm 15 "Coffee Beans Empty 2" true false
    ∷ alarm 16 "Cleaning Needed" false false
    ∷ alarm 17 "Bean Hopper Absent" true false
    ∷ alarm 18 "Grid Missing" true true
    ∷ []

pub record Monitor : Type 0 where
  pub profile : ℕ
  pub machine_state : MachineState
  pub action : Option ℕ
  pub progress : Option ℕ
  pub alarms : List Alarm
  pub alarm_word : Option ℕ

-- The loop over ALARMS.
unfoldable pub active_alarms : ℕ → List Alarm → List Alarm
active_alarms word [] = []
active_alarms word (a ∷ rest) =
    if bit_and word (1 * 2 ^ a.bit) == 0
    then active_alarms word rest
    else a ∷ active_alarms word rest

unfoldable pub alarm_word_of : ℕ → ℕ → ℕ → ℕ → ℕ
alarm_word_of b0 b1 b2 b3 =
    bit_or (bit_or (bit_or (bit_and b0 0xFF) (bit_and b1 0xFF * 2 ^ 8)) (bit_and b2 0xFF * 2 ^ 16))
      (bit_and b3 0xFF * 2 ^ 24)

-- What is reported for a payload of less than 14 bytes.
abbrev pub no_monitor : Monitor
no_monitor = record {
  profile = 0;
  machine_state = unknown;
  action = none;
  progress = none;
  alarms = [];
  alarm_word = none;
}

unfoldable pub parse_monitor : List ℕ → Monitor
unfolding state_in active_alarms alarm_word_of
parse_monitor raw =
    let word =
      alarm_word_of (get_or raw 7 0) (get_or raw 8 0) (get_or raw 12 0) (get_or raw 13 0) in
    if ltb (length raw) 14 then no_monitor else record {
      profile = get_or raw 4 0;
      machine_state = state_in machine_states (get_or raw 9 0);
      action = some (get_or raw 10 0);
      progress = some (get_or raw 11 0);
      alarms = active_alarms word all_alarms;
      alarm_word = some word;
    }
