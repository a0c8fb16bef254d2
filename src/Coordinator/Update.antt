-- ===== src/Coordinator/Update.antt =====
-- One cycle: `_async_update_data` (custom_components/delonghi_coffee/coordinator.py), against what
-- its calls give, and what the library keeps of its answer.
pub mod Laws
pub mod Alive
pub mod Outcome
use delonghi_ha.Prelude.{
  ℕ, zero, suc, ◌+◌, List, [], ◌∷◌, Bool, true, false, not, ◌&&◌, leb, ltb, String, Option, none,
  some, if◌then◌else◌,
}
use delonghi_ha.Prelude.Raise.{
  Exception, auth, api, unsupported, value_error, index_error, key_error, transport, http, Result,
  ok, raise,
}
use delonghi_ha.Ecam.Monitor.{MachineState, unknown, Monitor}
use delonghi_ha.Switch.Commands.{ping_or_monitor, suppress}
use delonghi_ha.Coordinator.Action.{Action, lift, modify, ◌>>=◌, ◌>>◌}
use delonghi_ha.Coordinator.Polling.{Polling, new_polling, adjust}
use delonghi_ha.Coordinator.Assess.{
  CloudStatus, StatusProps, get_cloud_status, MonitorTracker, track, is_timed_out, UpdateData,
  data_of, seed_bits,
}
use delonghi_ha.Coordinator.Catalog.{Catalog, full_refresh_interval, load_contentstack}
use delonghi_ha.Coordinator.Start.{LanConfig, Lan, LanCalls, start_once}

-- MQTT_KEEPALIVE_INTERVAL, in seconds.
abbrev pub keepalive_interval : ℕ
keepalive_interval = 240

-- `last_all_props` are the properties that the cached counters, profiles and beans were parsed from.
pub record Coordinator (P : Type 0) : Type 0 where
  pub last_data : Option UpdateData
  pub baseline_loaded : Bool
  pub polling : Polling
  pub last_full_refresh : ℕ
  pub last_keepalive : ℕ
  pub keepalive_failures : ℕ
  pub selected_profile : Option ℕ
  pub last_all_props : Option P
  pub model_identified : Bool
  pub lan : Lan
  pub catalog : Catalog
  pub tracker : MonitorTracker
  pub seen_alarm_bits : List ℕ

-- `__init__`, at a time of the clock.
unfoldable pub new_coordinator : (P : Type 0) → ℕ → Coordinator P
new_coordinator P now = record {
  last_data = none;
  baseline_loaded = false;
  polling = new_polling;
  last_full_refresh = 0;
  last_keepalive = 0;
  keepalive_failures = 0;
  selected_profile = none;
  last_all_props = none;
  model_identified = false;
  lan = record { config = none; start_attempted = false; server = none; active = false };
  catalog = record { loaded = false; failures = 0; next_retry = 0 };
  tracker = record { last_monitor_raw = none; stale_count = 0; last_changed = now };
  seen_alarm_bits = [];
}

-- What the calls of a cycle give, in their order: the store of the baselines, the status, the ping and
-- the monitor request, all properties, the parsers of them, the model table, the LAN configuration, the
-- network, whether the catalogue has a pattern for the model, its fetches, the clock after them, and the
-- clock when a change of the monitor is noted.
pub record CycleCalls (P : Type 0) : Type 0 where
  pub load : Result (Unit {0})
  pub status : Result StatusProps
  pub ping : Result Bool
  pub monitor : Result Bool
  pub all_props : Result P
  pub parsed : Result (Unit {0})
  pub transcode : Result (Unit {0})
  pub lan_config : Result LanConfig
  pub network : LanCalls
  pub has_pattern : Bool
  pub fetched : Result (Unit {0})
  pub catalog_clock : ℕ
  pub clock : ℕ

-- `self.data`'s "machine_state", "Unknown" where there are no data.
unfoldable pub last_state : Option UpdateData → MachineState
last_state none = unknown
last_state (some d) = d.machine_state

-- `selected_profile` is set once, to a profile that is not 0.
unfoldable pub seed_profile : ℕ → Option ℕ → Option ℕ
seed_profile zero none = none
seed_profile (suc n) none = some (suc n)
seed_profile profile (some chosen) = some chosen

module _ {P : Type 0} where
  unfoldable pub loaded : Result (Unit {0}) → Action (Coordinator P) (Unit {0})
  loaded (ok done) s = (ok tt, record s { baseline_loaded = true })
  loaded (raise e) s = (raise e, s)

  unfoldable pub load_baseline : CycleCalls P → Action (Coordinator P) (Unit {0})
  load_baseline c s = if s.baseline_loaded then (ok tt, s) else loaded c.load s

  -- `except (DeLonghiApiError, DeLonghiAuthError)` counts a failure.
  unfoldable pub noted : Result (Unit {0}) → ℕ → Action (Coordinator P) (Unit {0})
  noted (ok done) now s = (ok tt, record s { last_keepalive = now; keepalive_failures = 0 })
  noted (raise auth) now s = (ok tt, record s { keepalive_failures = suc s.keepalive_failures })
  noted (raise api) now s = (ok tt, record s { keepalive_failures = suc s.keepalive_failures })
  noted (raise unsupported) now s =
      (ok tt, record s { keepalive_failures = suc s.keepalive_failures })
  noted (raise value_error) now s = (raise value_error, s)
  noted (raise index_error) now s = (raise index_error, s)
  noted (raise key_error) now s = (raise key_error, s)
  noted (raise transport) now s = (raise transport, s)
  noted (raise (http n)) now s = (raise (http n), s)

  unfoldable pub keepalive : CycleCalls P → ℕ → Action (Coordinator P) (Unit {0})
  keepalive c now s =
      if leb (s.last_keepalive + keepalive_interval) now
      then noted (ping_or_monitor c.ping c.monitor) now s
      else (ok tt, s)

  unfoldable pub identified : Result (Unit {0}) → Action (Coordinator P) (Unit {0})
  identified (ok done) s = (ok tt, record s { model_identified = true })
  identified (raise e) s = (raise e, s)

  unfoldable pub identify : CycleCalls P → Action (Coordinator P) (Unit {0})
  identify c s = if s.model_identified then (ok tt, s) else identified c.transcode s

  unfoldable pub fetch_config :
      Option LanConfig → Result LanConfig → Action (Coordinator P) (Unit {0})
  fetch_config (some known) given s = (ok tt, s)
  fetch_config none (ok given) s = (ok tt, record s { lan = record s.lan { config = some given } })
  fetch_config none (raise e) s = (raise e, s)

  unfoldable pub fetch_lan_config : CycleCalls P → Action (Coordinator P) (Unit {0})
  fetch_lan_config c s = fetch_config s.lan.config c.lan_config s

  -- `not self._contentstack_loaded and now >= self._cs_next_retry`
  unfoldable pub load_catalog : CycleCalls P → ℕ → Catalog → Catalog
  load_catalog c now catalog =
      if not catalog.loaded && leb catalog.next_retry now
      then load_contentstack c.has_pattern c.fetched c.catalog_clock catalog
      else catalog

  unfoldable pub end_refresh : ℕ → Coordinator P → Coordinator P
  end_refresh now s = record s {
    last_full_refresh = now;
    last_keepalive = now;
    keepalive_failures = 0;
  }

  unfoldable pub full_refresh : CycleCalls P → ℕ → Action (Coordinator P) (Unit {0})
  full_refresh c now = do
    lift (suppress (ping_or_monitor c.ping c.monitor))
    props ← lift c.all_props
    modify (λ s. record s { last_all_props = some props })
    lift c.parsed
    identify c
    fetch_lan_config c
    modify (λ s. record s { lan = start_once c.network s.lan })
    modify (λ s. record s { catalog = load_catalog c now s.catalog })
    modify (end_refresh now)

  -- `(now - self._last_full_refresh) >= FULL_REFRESH_INTERVAL`
  unfoldable pub need_full : ℕ → Coordinator P → Bool
  need_full now s = leb (s.last_full_refresh + full_refresh_interval) now

  unfoldable pub finish_cycle : CycleCalls P → ℕ → CloudStatus → Action (Coordinator P) UpdateData
  finish_cycle c now st s =
      let tracker = track st.monitor_raw c.clock s.tracker in
      let d = data_of (is_timed_out now tracker) st in
      (
        ok d,
        record s {
          tracker = tracker;
          seen_alarm_bits = seed_bits d.alarm_word d.machine_state s.seen_alarm_bits;
        },
      )

  unfoldable pub refresh_caches : Bool → CycleCalls P → ℕ → Action (Coordinator P) (Unit {0})
  refresh_caches full c now = if full then full_refresh c now else keepalive c now

  -- From the status on, with the value of `need_full`.
  unfoldable pub fetch_data : Bool → CycleCalls P → ℕ → Action (Coordinator P) UpdateData
  fetch_data full c now = do
    st ← lift (get_cloud_status c.status)
    modify (λ s. record s { selected_profile = seed_profile st.monitor.profile s.selected_profile })
    refresh_caches full c now
    finish_cycle c now st

  abbrev pub adjust_polling : ℕ → Coordinator P → Coordinator P
  adjust_polling now s = record s { polling = adjust (last_state s.last_data) now s.polling }

  -- The body of the `try`. Nothing that `need_full` reads changes before it is computed.
  unfoldable pub update_body : CycleCalls P → ℕ → Action (Coordinator P) UpdateData
  update_body c now = λ start.
      (do load_baseline c; modify (adjust_polling now); fetch_data (need_full now start) c now)
        start

-- How a cycle ends.
pub data Refreshed : Type 0 where
  updated : UpdateData → Refreshed
  config_entry_auth_failed update_failed : Refreshed

-- The handlers of the `try`.
unfoldable pub handled : Result UpdateData → Refreshed
handled (ok d) = updated d
handled (raise auth) = config_entry_auth_failed
handled (raise api) = update_failed
handled (raise unsupported) = update_failed
handled (raise value_error) = update_failed
handled (raise index_error) = update_failed
handled (raise key_error) = update_failed
handled (raise transport) = update_failed
handled (raise (http n)) = update_failed

-- The library keeps the data of a cycle that succeeded.
unfoldable pub kept_data : Refreshed → Option UpdateData → Option UpdateData
kept_data (updated d) last = some d
kept_data config_entry_auth_failed last = last
kept_data update_failed last = last

module _ {P : Type 0} where
  unfoldable pub update_data : CycleCalls P → ℕ → Coordinator P → Refreshed × Coordinator P
  update_data c now s = let run = update_body c now s in (handled run.0, run.1)

  unfoldable pub refresh : CycleCalls P → ℕ → Coordinator P → Coordinator P
  refresh c now s =
      let run = update_data c now s in record run.1 { last_data = kept_data run.0 run.1.last_data }
