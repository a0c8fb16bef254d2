-- ===== src/Coordinator/Assess.antt =====
-- What `_async_update_data` makes of the status: staleness, alarms, the assumed Off state and the
-- inverted alarm bits (custom_components/delonghi_coffee/coordinator.py), with all fields of the
-- status that `get_status` gives (custom_components/delonghi_coffee/api.py).
pub mod History
pub mod Laws
use delonghi_ha.Prelude.{
  ℕ, suc, ◌+◌, ◌-◌, ◌*◌, ◌^◌, bit_and, List, [], ◌∷◌, Bool, true, false, not, ◌&&◌, ◌||◌, ◌==◌, ltb,
  String, str_eq, Option, none, some, if◌then◌else◌,
}
use delonghi_ha.Prelude.Raise.{
  Result, ok, raise, auth, api, unsupported, value_error, index_error, key_error, transport, http,
}
use delonghi_ha.Ecam.Monitor.{
  MachineState, off, brewing, heating, ready, unknown, Alarm, Monitor, no_monitor, parse_monitor,
}

-- `monitor_raw` is none where the key is missing or the bytes are empty.
pub record CloudStatus : Type 0 where
  pub status : String
  pub monitor : Monitor
  pub monitor_raw : Option (List ℕ)

-- What `get_properties` gives of the two properties: the value of `app_device_status` if it is there,
-- and that of the monitor, if it is there and not empty, as base64 decodes it.
pub record StatusProps : Type 0 where
  pub app_device_status : Option String
  pub monitor_value : Option (Result (List ℕ))

abbrev pub value_or : String → Option String → String
value_or default none = default
value_or default (some value) = value

abbrev pub nonempty : List ℕ → Option (List ℕ)
nonempty [] = none
nonempty (b ∷ raw) = some (b ∷ raw)

-- `result` before the monitor is read.
abbrev pub without_monitor : String → CloudStatus
without_monitor status = record { status = status; monitor = no_monitor; monitor_raw = none }

-- The monitor's part; `binascii.Error` is a ValueError, which the handler takes.
unfoldable pub with_monitor : String → Option (Result (List ℕ)) → Result CloudStatus
with_monitor status none = ok (without_monitor status)
with_monitor status (some (ok raw)) =
    ok (record { status = status; monitor = parse_monitor raw; monitor_raw = nonempty raw })
with_monitor status (some (raise api)) = ok (without_monitor status)
with_monitor status (some (raise unsupported)) = ok (without_monitor status)
with_monitor status (some (raise key_error)) = ok (without_monitor status)
with_monitor status (some (raise value_error)) = ok (without_monitor status)
with_monitor status (some (raise auth)) = raise auth
with_monitor status (some (raise index_error)) = raise index_error
with_monitor status (some (raise transport)) = raise transport
with_monitor status (some (raise (http n))) = raise (http n)

unfoldable pub get_cloud_status : Result StatusProps → Result CloudStatus
get_cloud_status (ok props) =
    with_monitor (value_or "UNKNOWN" props.app_device_status) props.monitor_value
get_cloud_status (raise api) = ok (without_monitor "UNKNOWN")
get_cloud_status (raise unsupported) = ok (without_monitor "UNKNOWN")
get_cloud_status (raise key_error) = ok (without_monitor "UNKNOWN")
get_cloud_status (raise value_error) = ok (without_monitor "UNKNOWN")
get_cloud_status (raise auth) = raise auth
get_cloud_status (raise index_error) = raise index_error
get_cloud_status (raise transport) = raise transport
get_cloud_status (raise (http n)) = raise (http n)

-- MONITOR_STALE_TIMEOUT, in seconds.
abbrev pub monitor_stale_timeout : ℕ
monitor_stale_timeout = 2700

-- `_last_monitor_raw`, `_monitor_stale_count` and `_monitor_last_changed`.
pub record MonitorTracker : Type 0 where
  pub last_monitor_raw : Option (List ℕ)
  pub stale_count : ℕ
  pub last_changed : ℕ

unfoldable pub same_raw : List ℕ → List ℕ → Bool
same_raw [] [] = true
same_raw [] (b ∷ rest) = false
same_raw (a ∷ rest) [] = false
same_raw (a ∷ rest) (b ∷ others) = a == b && same_raw rest others

-- `monitor_raw and monitor_raw == self._last_monitor_raw`
unfoldable pub is_repeated : Option (List ℕ) → Option (List ℕ) → Bool
is_repeated none last = false
is_repeated (some raw) none = false
is_repeated (some raw) (some last) = same_raw raw last

-- The second number is the clock when the change is noted.
unfoldable pub track : Option (List ℕ) → ℕ → MonitorTracker → MonitorTracker
track raw clock t =
    if is_repeated raw t.last_monitor_raw
    then record t { stale_count = suc t.stale_count; last_monitor_raw = raw }
    else record { last_monitor_raw = raw; stale_count = 0; last_changed = clock }

-- `now - last_changed > timeout`, where the difference may be negative.
unfoldable pub is_timed_out : ℕ → MonitorTracker → Bool
is_timed_out now t = ltb (t.last_changed + monitor_stale_timeout) now

-- The part of the data that depends on the status.
pub record UpdateData : Type 0 where
  pub status : String
  pub machine_state : MachineState
  pub monitor_action : Option ℕ
  pub monitor_progress : Option ℕ
  pub alarms : List Alarm
  pub alarm_word : Option ℕ
  pub monitor_stale : Bool
  pub profile : ℕ

-- `machine_state not in ("Unknown", "Off")`
unfoldable pub may_be_off : MachineState → Bool
may_be_off off = false
may_be_off unknown = false
may_be_off state = true

unfoldable pub assumed_state : Bool → CloudStatus → MachineState
assumed_state timed_out st =
    if timed_out && (str_eq st.status "RUN" && may_be_off st.monitor.machine_state)
    then off
    else st.monitor.machine_state

abbrev pub has_none : {A : Type 0} → List A → Bool
has_none [] = true
has_none (a ∷ rest) = false

-- `(monitor_timed_out or no_cloud) and alarms`
unfoldable pub is_suppressed : Bool → CloudStatus → Bool
is_suppressed timed_out st =
    (timed_out || str_eq st.status "UNKNOWN") && not (has_none st.monitor.alarms)

unfoldable pub data_of : Bool → CloudStatus → UpdateData
data_of timed_out st = record {
  status = st.status;
  machine_state = assumed_state timed_out st;
  monitor_action = st.monitor.action;
  monitor_progress = st.monitor.progress;
  alarms = if is_suppressed timed_out st then [] else st.monitor.alarms;
  alarm_word = if is_suppressed timed_out st then none else st.monitor.alarm_word;
  monitor_stale = timed_out;
  profile = st.monitor.profile;
}

-- `machine_state in ("Ready", "Brewing", "Heating")`
unfoldable pub is_normal : MachineState → Bool
is_normal ready = true
is_normal brewing = true
is_normal heating = true
is_normal state = false

-- A set of bits as a list.
unfoldable pub holds_bit : ℕ → List ℕ → Bool
holds_bit bit [] = false
holds_bit bit (b ∷ rest) = bit == b || holds_bit bit rest

unfoldable pub add_bit : ℕ → List ℕ → List ℕ
add_bit bit bits = if holds_bit bit bits then bits else bit ∷ bits

-- The loop over 13 and 18.
unfoldable pub seed_from : ℕ → List ℕ → List ℕ → List ℕ
seed_from word [] seen = seen
seed_from word (bit ∷ rest) seen =
    seed_from word rest (if bit_and word (1 * 2 ^ bit) == 0 then seen else add_bit bit seen)

abbrev pub inverted_bits : List ℕ
inverted_bits = 13 ∷ 18 ∷ []

unfoldable pub seed_bits : Option ℕ → MachineState → List ℕ → List ℕ
seed_bits none state seen = seen
seed_bits (some word) state seen =
    if is_normal state then seed_from word inverted_bits seen else seen
