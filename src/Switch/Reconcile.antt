-- ===== src/Switch/Reconcile.antt =====
-- `_reconcile_monitor_state` and `is_on` (custom_components/delonghi_coffee/switch.py).
pub mod Laws
use delonghi_ha.Prelude.{
  ℕ, zero, suc, ◌+◌, Bool, true, false, not, ◌||◌, ◌==◌, leb, String, str_eq, Option, none, some,
  if◌then◌else◌,
}

abbrev pub stale_threshold : ℕ
stale_threshold = 3

-- `coordinator.data`: which object it is, and its "machine_state", "Unknown" where it has none.
pub record Data : Type 0 where
  pub object : ℕ
  pub machine_state : String

-- The fields of the entity that the state machine reads and writes.
pub record Power : Type 0 where
  pub assumed_on : Bool
  pub last_commanded_on : Option Bool
  pub monitor_stale_count : ℕ
  pub last_monitor_state : Option String
  pub cached_is_on : Bool
  pub processed_data : Option ℕ

-- `state not in ("Off", "Going to sleep")`
abbrev pub says_on : String → Bool
says_on state = not (str_eq state "Off" || str_eq state "Going to sleep")

abbrev pub same_flag : Bool → Bool → Bool
same_flag true b = b
same_flag false b = not b

-- `state == self._last_monitor_state`
abbrev pub repeats : String → Option String → Bool
repeats state none = false
repeats state (some last) = str_eq state last

-- The step of a command that is not confirmed yet.
unfoldable pub compare_commanded : Option Bool → String → Power → Power
compare_commanded none state p = p
compare_commanded (some commanded) state p =
    if same_flag (says_on state) commanded
    then record p { monitor_stale_count = 0; last_commanded_on = none }
    else record p {
      monitor_stale_count =
          if repeats state p.last_monitor_state then p.monitor_stale_count + 1 else 1;
    }

-- The last two assignments.
unfoldable pub follow : Option Bool → Bool → Power → Power
follow none result p = record p { assumed_on = result; cached_is_on = result }
follow (some commanded) result p = record p { cached_is_on = result }

abbrev pub is_stale : Option Bool → ℕ → Bool
is_stale none count = false
is_stale (some commanded) count = leb stale_threshold count

unfoldable pub settle : String → Power → Power
settle state p =
    if is_stale p.last_commanded_on p.monitor_stale_count
    then record p { cached_is_on = p.assumed_on }
    else follow p.last_commanded_on (says_on state) p

unfoldable pub reconcile : Data → Power → Power
reconcile d p =
    let seen = record p { processed_data = some d.object } in
    if str_eq d.machine_state "Unknown"
    then record seen { cached_is_on = seen.assumed_on }
    else settle d.machine_state
        (record (compare_commanded seen.last_commanded_on d.machine_state seen) {
          last_monitor_state = some d.machine_state;
        })

-- `self._processed_data_obj is not self.coordinator.data`
abbrev pub processed : Option ℕ → ℕ → Bool
processed none object = false
processed (some seen) object = seen == object

-- The property with its lazy pass: the answer, and the state after it.
unfoldable pub is_on : Data → Power → Bool × Power
is_on d p =
    if str_eq d.machine_state "Unknown"
    then (p.assumed_on, p)
    else if processed p.processed_data d.object
    then (p.cached_is_on, p)
    else let after = reconcile d p in (after.cached_is_on, after)
