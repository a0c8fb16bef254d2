-- ===== src/Sensors/Alarm.antt =====
-- `DeLonghiAlarmSensor` (custom_components/delonghi_coffee/binary_sensor.py), with the set of bits that it
-- shares with the coordinator, and the aggregation of blocking alarms (sensor.py).
use delonghi_ha.Prelude.{
  ℕ, ◌*◌, ◌^◌, bit_and, List, [], ◌∷◌, Bool, true, false, not, ◌&&◌, ◌==◌, length, Option, none,
  some, if◌then◌else◌,
}
use delonghi_ha.Ecam.Monitor.{MachineState, Alarm, all_alarms}
use delonghi_ha.Coordinator.Assess.{holds_bit, add_bit, seed_bits, inverted_bits}

-- `alarm_word & (1 << bit)`
unfoldable pub has_bit : ℕ → ℕ → Bool
has_bit bit word = not (bit_and word (1 * 2 ^ bit) == 0)

-- `available`, and `seen_alarm_bits` after it.
abbrev pub learn_bit : ℕ → ℕ → List ℕ → Bool × List ℕ
learn_bit bit word seen = if has_bit bit word then (true, add_bit bit seen) else (false, seen)

abbrev pub supported : ℕ → Bool → Option ℕ → List ℕ → Bool × List ℕ
supported bit inverted none seen = (false, seen)
supported bit inverted (some word) seen =
    if inverted && not (holds_bit bit seen) then learn_bit bit word seen else (true, seen)

unfoldable pub available : ℕ → Bool → Bool → Option ℕ → List ℕ → Bool × List ℕ
available bit inverted updated word seen =
    if updated then supported bit inverted word seen else (false, seen)

unfoldable pub alarm_is_on : ℕ → Bool → Option ℕ → Option Bool
alarm_is_on bit inverted none = none
alarm_is_on bit inverted (some word) =
    some (if inverted then not (has_bit bit word) else has_bit bit word)

-- One cycle of the coordinator, and then the states of the sensors of some inverted bits are written.
pub record SensorCycle : Type 0 where
  pub updated : Bool
  pub state : MachineState
  pub word : Option ℕ

unfoldable pub write_states : List ℕ → SensorCycle → List ℕ → List ℕ
write_states [] c seen = seen
write_states (bit ∷ bits) c seen = write_states bits c (available bit true c.updated c.word seen).1

unfoldable pub cycle : SensorCycle → List ℕ → List ℕ
cycle c seen = write_states inverted_bits c (seed_bits c.word c.state seen)

unfoldable pub cycles : List SensorCycle → List ℕ → List ℕ
cycles [] seen = seen
cycles (c ∷ later) seen = cycles later (cycle c seen)

-- `BLOCKING_ALARM_BITS`, the number of blocking alarms and their bits.
unfoldable pub blocking_bits_of : List Alarm → List ℕ
blocking_bits_of [] = []
blocking_bits_of (a ∷ alarms) =
    let rest = blocking_bits_of alarms in if a.blocking then a.bit ∷ rest else rest

abbrev pub blocking_alarm_bits : List ℕ
blocking_alarm_bits = blocking_bits_of all_alarms

unfoldable pub blocking_alarms : List Alarm → List Alarm
blocking_alarms [] = []
blocking_alarms (a ∷ alarms) =
    let rest = blocking_alarms alarms in
    if holds_bit a.bit blocking_alarm_bits then a ∷ rest else rest

unfoldable pub blocking_count : List Alarm → ℕ
blocking_count alarms = length (blocking_alarms alarms)
