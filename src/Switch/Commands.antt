-- ===== src/Switch/Commands.antt =====
-- `async_turn_on`, `async_turn_off` and `_retry_power_on`
-- (custom_components/delonghi_coffee/switch.py), as runs against what their calls give.
pub mod Laws
use delonghi_ha.Prelude.{
  ℕ, List, [], ◌∷◌, Bool, true, false, ◌||◌, String, str_eq, Option, none, some, if◌then◌else◌,
}
use delonghi_ha.Prelude.Raise.{
  Exception, auth, api, unsupported, value_error, index_error, key_error, transport, http, Result,
  ok, raise,
}
use delonghi_ha.Switch.Reconcile.{Power}

pub data Sent : Type 0 where
  power_on power_off : Sent

-- How a run ends: `ignored` if another one holds the lock, `aborted` if a turn-off came in the wake
-- delay, `home_assistant_error` for HomeAssistantError, `escaped` for an exception that no handler
-- names.
pub data Outcome : Type 0 where
  done ignored aborted home_assistant_error : Outcome
  escaped : Exception → Outcome

-- What the calls give: the ping and the monitor request before and after the command, whether the
-- local network takes the command, and the cloud's answer to it otherwise.
pub record Calls : Type 0 where
  pub wake : Result Bool
  pub wake_monitor : Result Bool
  pub cancelled : Bool
  pub lan : Bool
  pub cloud : Result Bool
  pub refresh : Result Bool
  pub refresh_monitor : Result Bool

-- `retry_task` is whether a retry is scheduled.
pub record Run : Type 0 where
  pub outcome : Outcome
  pub power : Power
  pub sent : List Sent
  pub retry_task : Bool

-- `ping_ok = ...; if not ping_ok: request_monitor(...)`
unfoldable pub ping_or_monitor : Result Bool → Result Bool → Result (Unit {0})
ping_or_monitor (raise e) monitor = raise e
ping_or_monitor (ok true) monitor = ok tt
ping_or_monitor (ok false) (raise e) = raise e
ping_or_monitor (ok false) (ok b) = ok tt

-- `except (DeLonghiApiError, DeLonghiAuthError): pass`
unfoldable pub suppress : Result (Unit {0}) → Result (Unit {0})
suppress (ok x) = ok tt
suppress (raise auth) = ok tt
suppress (raise api) = ok tt
suppress (raise unsupported) = ok tt
suppress (raise value_error) = raise value_error
suppress (raise index_error) = raise index_error
suppress (raise key_error) = raise key_error
suppress (raise transport) = raise transport
suppress (raise (http n)) = raise (http n)

-- `except (DeLonghiApiError, DeLonghiAuthError) as err: raise HomeAssistantError`
unfoldable pub failure : Exception → Outcome
failure auth = home_assistant_error
failure api = home_assistant_error
failure unsupported = home_assistant_error
failure value_error = escaped value_error
failure index_error = escaped index_error
failure key_error = escaped key_error
failure transport = escaped transport
failure (http n) = escaped (http n)

-- `if not await send_command_lan(...): send_command(...)`
unfoldable pub send : Bool → Result Bool → Result (Unit {0})
send true cloud = ok tt
send false (ok b) = ok tt
send false (raise e) = raise e

-- The assignments after a command that was sent.
unfoldable pub commanded : Bool → Power → Power
commanded v p = record p { assumed_on = v; last_commanded_on = some v; monitor_stale_count = 0 }

-- Phases 3 and 4 of a turn-on, or the end of a turn-off, with the retry that is scheduled if the run
-- fails, and if it succeeds.
unfoldable pub finish : Bool → Sent → Bool → Bool → Result (Unit {0}) → Power → Run
finish v cmd before after (ok x) p = record {
  outcome = done;
  power = commanded v p;
  sent = cmd ∷ [];
  retry_task = after;
}
finish v cmd before after (raise e) p = record {
  outcome = failure e;
  power = p;
  sent = cmd ∷ [];
  retry_task = before;
}

-- Phase 2 is over.
unfoldable pub after_send : Bool → Sent → Bool → Bool → Result (Unit {0}) → Calls → Power → Run
after_send v cmd before after (raise e) c p = record {
  outcome = failure e;
  power = p;
  sent = cmd ∷ [];
  retry_task = before;
}
after_send v cmd before after (ok x) c p =
    finish v cmd before after (suppress (ping_or_monitor c.refresh c.refresh_monitor)) p

-- After phase 1.
unfoldable pub after_wake : Result (Unit {0}) → Bool → Calls → Power → Run
after_wake (raise e) pending c p = record {
  outcome = failure e;
  power = p;
  sent = [];
  retry_task = pending;
}
after_wake (ok x) pending c p =
    if c.cancelled
    then record { outcome = aborted; power = p; sent = []; retry_task = pending }
    else after_send true power_on pending true (send c.lan c.cloud) c p

-- `locked` is whether another command holds the lock.
unfoldable pub turn_on : Bool → Bool → Calls → Power → Run
turn_on locked pending c p =
    if locked
    then record { outcome = ignored; power = p; sent = []; retry_task = pending }
    else after_wake (suppress (ping_or_monitor c.wake c.wake_monitor)) pending c p

-- Once the lock is held. A scheduled retry is cancelled first.
unfoldable pub turn_off : Calls → Power → Run
turn_off c p = after_send false power_off false false (send c.lan c.cloud) c p

abbrev pub wants_retry : Option Bool → Bool
wants_retry (some true) = true
wants_retry (some false) = false
wants_retry none = false

-- A retry that fails is logged, or ends with an exception that no handler names.
abbrev pub logged : Outcome → Outcome
logged home_assistant_error = done
logged done = done
logged ignored = ignored
logged aborted = aborted
logged (escaped e) = escaped e

unfoldable pub retried : Result (Unit {0}) → Outcome
retried (ok x) = done
retried (raise e) = logged (failure e)

unfoldable pub retry_after_send : Result (Unit {0}) → Calls → Power → Run
retry_after_send (raise e) c p = record {
  outcome = retried (raise e);
  power = p;
  sent = power_on ∷ [];
  retry_task = false;
}
retry_after_send (ok x) c p = record {
  outcome = retried (ping_or_monitor c.refresh c.refresh_monitor);
  power = p;
  sent = power_on ∷ [];
  retry_task = false;
}

unfoldable pub retry_after_wake : Result (Unit {0}) → Calls → Power → Run
retry_after_wake (raise e) c p = record {
  outcome = retried (raise e);
  power = p;
  sent = [];
  retry_task = false;
}
retry_after_wake (ok x) c p = retry_after_send (send c.lan c.cloud) c p

-- After the delay of three minutes, with the machine's state at that time.
unfoldable pub retry_power_on : String → Calls → Power → Run
retry_power_on state c p =
    if wants_retry p.last_commanded_on
    then (if str_eq state "Off" || str_eq state "Unknown" || str_eq state "Going to sleep"
        then retry_after_wake (ping_or_monitor c.wake c.wake_monitor) c p
        else record { outcome = done; power = p; sent = []; retry_task = false })
    else record { outcome = done; power = p; sent = []; retry_task = false }
