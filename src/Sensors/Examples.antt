-- ===== src/Sensors/Examples.antt =====
-- Runs of the sensors.
use delonghi_ha.Prelude.{◌≡◌, refl, [], ◌∷◌, true, false, not, ◌&&◌, none, some}
use delonghi_ha.Prelude.Int.{pos}
use delonghi_ha.Baseline.{Store}
use delonghi_ha.Counters.{number, as_int}
use delonghi_ha.Ecam.Monitor.{ready, turning_on, alarm}
use delonghi_ha.Coordinator.Assess.{holds_bit}
use delonghi_ha.Sensors.Counter.{Sensor, positive, resolve_active_profile_id}
use delonghi_ha.Sensors.Alarm.{
  available, SensorCycle, cycles, blocking_bits_of, blocking_alarms, blocking_count,
}
use delonghi_ha.Sensors.Learning.{any_shows, word_has, raised, alarm_lem}

abbrev teas : Sensor
teas = record { counter_key = "tea"; has_scale = false; non_numeric_warned = false }

abbrev screen : Store
screen = record { values = ("tea", pos 40) ∷ []; is_loaded = true; saved = none }

-- Bit 13 is seen while the machine is ready; then the tank is taken out.
abbrev tank_in : SensorCycle
tank_in = record { updated = true; state = ready; word = some 8192 }

abbrev tank_out : SensorCycle
tank_out = record { updated = true; state = turning_on; word = some 0 }

is_13 : holds_bit 13 (13 ∷ 18 ∷ []) ≡ true
unfolding holds_bit
is_13 = refl

alarm_lem_example :
    ((available 13 true true (some 0) (cycles (tank_in ∷ tank_out ∷ []) [])).0
      ≡ (true && (true && any_shows 13 (tank_in ∷ tank_out ∷ []))))
    × (raised 13 tank_out (cycles (tank_in ∷ tank_out ∷ []) [])
        ≡ (true && (true && (not (word_has 13 (some 0)) && any_shows 13 (tank_in ∷ [])))))
alarm_lem_example = alarm_lem 13 (tank_in ∷ []) tank_out is_13

cloud_first : resolve_active_profile_id (number (pos 3)) (number (pos 2)) ≡ 3
unfolding resolve_active_profile_id positive as_int
cloud_first = refl

monitor_next : resolve_active_profile_id (number (pos 0)) (number (pos 2)) ≡ 2
unfolding resolve_active_profile_id positive as_int
monitor_next = refl

one_blocks :
    blocking_count
      (alarm 0 "Water Tank Empty" true false ∷ alarm 2 "Descale Needed" false false ∷ [])
    ≡ 1
unfolding blocking_count blocking_alarms blocking_bits_of holds_bit
one_blocks = refl
