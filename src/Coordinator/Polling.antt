-- ===== src/Coordinator/Polling.antt =====
-- The polling interval: `request_fast_poll` and the two adjustments at the top of
-- `_async_update_data` (custom_components/delonghi_coffee/coordinator.py).
pub mod Laws
use delonghi_ha.Prelude.{
  ℕ, zero, suc, ◌+◌, max, Bool, true, false, not, ◌&&◌, ltb, Option, none, some, if◌then◌else◌,
}
use delonghi_ha.Prelude.Int.{ℤ, pos, negsuc}
use delonghi_ha.Ecam.Monitor.{
  MachineState, off, turning_on, idle, brewing, error, descaling, heating, ready, rinsing,
  going_to_sleep, preparing_milk, dispensing_hot_water, cleaning_milk_system, rinsing_water_filter,
  preparing_chocolate, preparing_milk_alt, unknown, other,
}

-- Seconds: SCAN_INTERVAL_SECONDS, which `_normal_update_interval` holds, and
-- ACTIVE_SCAN_INTERVAL_SECONDS.
abbrev pub scan_interval : ℕ
scan_interval = 60

abbrev pub active_scan_interval : ℕ
active_scan_interval = 10

-- Times and intervals are in whole seconds.
pub record Polling : Type 0 where
  pub fast_poll_until : Option ℕ
  pub active_polling : Bool
  pub update_interval : ℕ

abbrev pub new_polling : Polling
new_polling = record {
  fast_poll_until = none;
  active_polling = false;
  update_interval = scan_interval;
}

-- `max(self._fast_poll_until or 0.0, deadline)`
abbrev pub extended : Option ℕ → ℕ → ℕ
extended none deadline = max 0 deadline
extended (some until) deadline = max until deadline

-- `duration_s` and `interval_s` may be of either sign; the last number is the clock.
unfoldable pub request_fast_poll : ℤ → ℤ → ℕ → Polling → Polling
request_fast_poll (negsuc d) interval now p = p
request_fast_poll (pos zero) interval now p = p
request_fast_poll (pos (suc d)) (negsuc i) now p = p
request_fast_poll (pos (suc d)) (pos zero) now p = p
request_fast_poll (pos (suc d)) (pos (suc i)) now p = record {
  fast_poll_until = some (extended p.fast_poll_until (now + suc d));
  active_polling = false;
  update_interval = suc i;
}

-- ACTIVE_MACHINE_STATES
unfoldable pub is_active_state : MachineState → Bool
is_active_state turning_on = true
is_active_state brewing = true
is_active_state descaling = true
is_active_state heating = true
is_active_state rinsing = true
is_active_state error = true
is_active_state idle = true
is_active_state preparing_milk = true
is_active_state dispensing_hot_water = true
is_active_state cleaning_milk_system = true
is_active_state rinsing_water_filter = true
is_active_state preparing_chocolate = true
is_active_state preparing_milk_alt = true
is_active_state off = false
is_active_state ready = false
is_active_state going_to_sleep = false
is_active_state unknown = false
is_active_state (other n) = false

-- `self._fast_poll_until is not None and now > self._fast_poll_until`
abbrev pub is_over : Option ℕ → ℕ → Bool
is_over none now = false
is_over (some until) now = ltb until now

unfoldable pub close_window : ℕ → Polling → Polling
close_window now p =
    if is_over p.fast_poll_until now
    then record p { update_interval = scan_interval; fast_poll_until = none }
    else p

abbrev pub is_none : Option ℕ → Bool
is_none none = true
is_none (some until) = false

-- The adaptive polling, with `should_poll_active`.
unfoldable pub adapt : Bool → Polling → Polling
adapt should p =
    if should && (not p.active_polling && is_none p.fast_poll_until)
    then record p { active_polling = true; update_interval = active_scan_interval }
    else if not should && p.active_polling
    then record p {
      active_polling = false;
      update_interval = if is_none p.fast_poll_until then scan_interval else p.update_interval;
    }
    else p

-- Both, with "machine_state" of the last data.
unfoldable pub adjust : MachineState → ℕ → Polling → Polling
adjust state now p = adapt (is_active_state state) (close_window now p)
