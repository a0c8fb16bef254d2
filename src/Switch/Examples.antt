-- ===== src/Switch/Examples.antt =====
-- Runs of the switch on concrete reports and calls.
use delonghi_ha.Prelude.{[], true, false, String, str_eq, none, some, ◌≡◌, refl}
use delonghi_ha.Prelude.Raise.{ok, raise, transport}
use delonghi_ha.Switch.Reconcile.{Data, Power, reconcile, is_on}
use delonghi_ha.Switch.Reconcile.Laws.{
  IsSound, reports, reconcile_lem, reconcile-stale, is_on_twice,
}
use delonghi_ha.Switch.Commands.{power_off, done, Calls, turn_off, retry_power_on}
use delonghi_ha.Switch.Commands.Laws.{Carries, turn_off_lem}

abbrev turned_on : Power
turned_on = record {
  assumed_on = true;
  last_commanded_on = some true;
  monitor_stale_count = 0;
  last_monitor_state = some "Off";
  cached_is_on = false;
  processed_data = none;
}

abbrev off_report : Data
off_report = record { object = 7; machine_state = "Off" }

turned_on-IsSound : IsSound turned_on
turned_on-IsSound v h = cc

reconcile_lem_example :
    IsSound (reconcile off_report turned_on)
    × ((reconcile off_report turned_on).processed_data ≡ some 7)
    × (off_report.machine_state ≡ "Unknown" → (reconcile off_report turned_on).cached_is_on ≡ true)
    × (str_eq "Off" "Unknown" ≡ false
        → turned_on.last_commanded_on ≡ none
        → ((reconcile off_report turned_on).cached_is_on ≡ false)
          × ((reconcile off_report turned_on).assumed_on ≡ false))
    × (str_eq "Off" "Unknown" ≡ false
        → turned_on.last_commanded_on ≡ some false
        → ((reconcile off_report turned_on).cached_is_on ≡ false)
          × ((reconcile off_report turned_on).last_commanded_on ≡ none))
reconcile_lem_example = reconcile_lem off_report turned_on turned_on-IsSound

reconcile-stale_example :
    ((reports 3 0 "Off" turned_on).cached_is_on ≡ true)
    × ((reports 3 0 "Off" turned_on).last_commanded_on ≡ some true)
reconcile-stale_example = reconcile-stale true "Off" refl refl 2 0 turned_on refl refl refl

is_on_twice_test :
    (is_on off_report (is_on off_report turned_on).1 ≡ is_on off_report turned_on)
    × (is_on off_report (reconcile off_report turned_on)
        ≡ ((reconcile off_report turned_on).cached_is_on, reconcile off_report turned_on))
is_on_twice_test = is_on_twice off_report turned_on

-- A machine that answers nothing, then one that takes the command over the cloud.
abbrev dead : Calls
dead = record {
  wake = raise transport;
  wake_monitor = ok true;
  cancelled = false;
  lan = false;
  cloud = ok true;
  refresh = ok true;
  refresh_monitor = ok true;
}

turn_off_lem_example :
    Carries false power_off false false turned_on (turn_off dead turned_on)
    × ((turn_off dead turned_on).retry_task ≡ false)
    × ((turn_off dead turned_on).outcome ≡ done
        → (state : String) (later : Calls)
        → (retry_power_on state later (turn_off dead turned_on).power).sent ≡ [])
turn_off_lem_example = turn_off_lem dead turned_on
