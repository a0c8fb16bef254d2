-- ===== src/Coordinator/Examples.antt =====
-- Tests and witnesses for the coordinator.
use delonghi_ha.Prelude.{ℕ, List, [], ◌∷◌, true, false, none, some, ◌≡◌, refl, inr, arith}
use delonghi_ha.Prelude.Int.{pos}
use delonghi_ha.Prelude.Raise.{ok, raise, api}
use delonghi_ha.Ecam.Monitor.{off, brewing, parse_monitor, state_in}
use delonghi_ha.Cloud.Send.{data_request}
use delonghi_ha.Lan.Crypto.{LanSession}
use delonghi_ha.Lan.Server.{LanServer, is_session_alive, seen_within}
use delonghi_ha.Switch.Commands.{ping_or_monitor}
use delonghi_ha.Coordinator.Polling.{request_fast_poll, is_active_state}
use delonghi_ha.Coordinator.Polling.Laws.{Fits, Settled}
use delonghi_ha.Coordinator.Assess.{
  CloudStatus, get_cloud_status, with_monitor, same_raw, is_repeated, track, is_timed_out,
  UpdateData, data_of, may_be_off, assumed_state, is_normal, holds_bit, add_bit, seed_from,
  seed_bits,
}
use delonghi_ha.Coordinator.Assess.History.{Reading, track_all}
use delonghi_ha.Coordinator.Assess.Laws.{Reports, data_of-Reports}
use delonghi_ha.Coordinator.Update.{
  Coordinator, CycleCalls, new_coordinator, last_state, need_full, updated, update_data, refresh,
  loaded, load_baseline, noted, keepalive, finish_cycle, refresh_caches, fetch_data, update_body,
  seed_profile,
}
use delonghi_ha.Coordinator.Action.{lift, modify, ◌>>=◌}
use delonghi_ha.Coordinator.Update.Alive.{Kept, update_data-keepalive}
use delonghi_ha.Coordinator.Update.Outcome.{CycleEnds, update_data-CycleEnds}
use delonghi_ha.Coordinator.Trace.{fast_poll, press, here, next}
use delonghi_ha.Coordinator.Trace.Laws.{Reach-Fits, refresh-Settled}
use delonghi_ha.Coordinator.Command.{send_command_lan, Payload}
use delonghi_ha.Coordinator.Command.Laws.{Sends, send_command_lan_lem}

-- A machine that is ready, without alarms.
abbrev ready_raw : List ℕ
ready_raw = 0xD0 ∷ 0x12 ∷ 0x75 ∷ 0x0F ∷ 2 ∷ 0 ∷ 0 ∷ 0 ∷ 0 ∷ 7 ∷ 0 ∷ 0 ∷ 0 ∷ 0 ∷ []

abbrev calls : CycleCalls ℕ
calls = record {
  load = ok tt;
  status = ok (record { app_device_status = some "RUN"; monitor_value = some (ok ready_raw) });
  ping = raise api;
  monitor = ok true;
  all_props = ok 1;
  parsed = ok tt;
  transcode = ok tt;
  lan_config = ok (record { lan_enabled = false; lanip_key = []; lan_ip = "" });
  network = record { local_ip = none; start = ok tt; register = ok tt };
  has_pattern = false;
  fetched = ok tt;
  catalog_clock = 300;
  clock = 300;
}

abbrev start : Coordinator ℕ
start = new_coordinator ℕ 0

abbrev pressed : Coordinator ℕ
pressed = fast_poll ℕ (pos 90) (pos 5) 100 start

pressed_test : (pressed.polling.update_interval ≡ 5) × (pressed.polling.fast_poll_until ≡ some 190)
unfolding request_fast_poll new_coordinator
pressed_test = (refl, refl)

Reach-Fits_test : Fits pressed.polling
Reach-Fits_test = Reach-Fits ℕ 0 (next here (press (pos 90) (pos 5) 100))

refresh-Settled_example :
    Settled (is_active_state (last_state pressed.last_data)) (refresh calls 300 pressed).polling
unfolding request_fast_poll new_coordinator
refresh-Settled_example =
    refresh-Settled ℕ 0 calls 300 (next here (press (pos 90) (pos 5) 100)) (omega arith) (inr refl)

update_data-CycleEnds_example : CycleEnds calls 300 start
update_data-CycleEnds_example = update_data-CycleEnds calls 300 start (inr refl)

-- The first cycle 5 minutes after the start of the host is light: its ping fails and is counted, and no
-- property is read.
first_cycle :
    (((update_data calls 300 start).1.keepalive_failures ≡ 1)
      × ((update_data calls 300 start).1.last_all_props ≡ none)
      × ((update_data calls 300 start).1.selected_profile ≡ some 2))
unfolding update_data update_body load_baseline loaded fetch_data refresh_caches keepalive noted
    finish_cycle new_coordinator ◌>>=◌ lift modify get_cloud_status with_monitor parse_monitor
    seed_profile need_full ping_or_monitor
first_cycle = (refl, refl, refl)

abbrev ready_status : CloudStatus
ready_status = record {
  status = "RUN";
  monitor = parse_monitor ready_raw;
  monitor_raw = some ready_raw;
}

abbrev first_data : UpdateData
first_data = data_of (is_timed_out 300 (track (some ready_raw) 300 start.tracker)) ready_status

first_ends : (update_data calls 300 start).0 ≡ updated first_data
unfolding get_cloud_status with_monitor need_full new_coordinator ping_or_monitor
first_ends = (update_data-CycleEnds calls 300 start (inr refl)).light ready_status refl refl tt

update_data-keepalive_example :
    Kept
      (need_full 300 start)
      start.last_keepalive
      start.keepalive_failures
      300
      (ping_or_monitor calls.ping calls.monitor)
      (update_data calls 300 start).1.last_keepalive
      (update_data calls 300 start).1.keepalive_failures
update_data-keepalive_example = update_data-keepalive calls 300 start first_data first_ends

abbrev older : List Reading
older = record { raw = some ready_raw; clock = 100 } ∷ []

data_of-Reports_example :
    Reports 3000 (record { raw = some ready_raw; clock = 3000 } ∷ older) ready_status (
      data_of
        (is_timed_out 3000
          (track_all (record { raw = some ready_raw; clock = 3000 } ∷ older) start.tracker))
        ready_status)
data_of-Reports_example =
    data_of-Reports older start.tracker 3000 3000 ready_status ((omega arith, tt), (tt, tt))

-- The machine says Ready for 45 minutes with the same payload: it is reported Off.
silent_machine :
    (data_of
      (is_timed_out 3000
        (track_all (record { raw = some ready_raw; clock = 3000 } ∷ older) start.tracker))
      ready_status).machine_state
    ≡ off
unfolding data_of is_timed_out track_all track is_repeated same_raw assumed_state may_be_off
    parse_monitor state_in new_coordinator
silent_machine = refl

-- A machine with its tank and its grid: bits 13 and 18 are seen.
seeded : seed_bits (some 0x42000) brewing [] ≡ 18 ∷ 13 ∷ []
unfolding seed_bits is_normal seed_from add_bit holds_bit
seeded = refl

abbrev session : LanSession
session = record {
  app_sign_key = [];
  app_crypto_key = [];
  app_iv = [];
  dev_crypto_key = [];
  dev_iv = [];
  random_1 = [];
  random_2 = [];
  time_1 = pos 1;
  time_2 = pos 2;
}

abbrev server : LanServer Payload
server = record {
  session = some session;
  last_activity = some 70;
  seq = 4;
  pending = [];
  last_handshake_time1 = [];
}

send_command_lan_lem_example :
    Sends "AC000W0" (0x0D ∷ []) (some data_request) 1700000000 1700000000 100 server
send_command_lan_lem_example =
    send_command_lan_lem "AC000W0" (0x0D ∷ []) (some data_request) 1700000000 1700000000 100 server

-- A device that was silent for 31 seconds.
stale_session :
    (send_command_lan "AC000W0" (0x0D ∷ []) none 1700000000 1700000000 101 (some server)).0 ≡ false
unfolding send_command_lan is_session_alive seen_within
stale_session = refl
