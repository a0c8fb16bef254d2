-- ===== src/Coordinator/Polling/Laws.antt =====
-- The interval that each adjustment leaves.
use delonghi_ha.Prelude.{
  ℕ, zero, suc, ◌<◌, Bool, true, false, Option, none, some, if◌then◌else◌, ltb, ◌≡◌, refl, sym, ap,
  arith, if_rule,
}
use delonghi_ha.Prelude.Int.{ℤ, pos, negsuc}
use delonghi_ha.Ecam.Monitor.{MachineState}
use delonghi_ha.Coordinator.Polling.{
  Polling, scan_interval, active_scan_interval, request_fast_poll, is_active_state, close_window,
  adapt, adjust,
}

-- Outside a fast-poll window the interval is the one of the mode, and a window has no active polling.
abbrev pub FitsWindow : Option ℕ → Bool → ℕ → Type 0
FitsWindow none active interval =
    interval ≡ (if active then active_scan_interval else scan_interval)
FitsWindow (some until) active interval = active ≡ false

abbrev pub Fits : Polling → Type 0
Fits p = FitsWindow p.fast_poll_until p.active_polling p.update_interval

pub request_fast_poll-Fits :
    (duration interval : ℤ) (now : ℕ) (p : Polling)
    → Fits p
    → Fits (request_fast_poll duration interval now p)
unfolding request_fast_poll
request_fast_poll-Fits (negsuc d) interval now p h = h
request_fast_poll-Fits (pos zero) interval now p h = h
request_fast_poll-Fits (pos (suc d)) (negsuc i) now p h = h
request_fast_poll-Fits (pos (suc d)) (pos zero) now p h = h
request_fast_poll-Fits (pos (suc d)) (pos (suc i)) now p h = refl

close_window-Fits :
    (window : Option ℕ) (active : Bool) (interval now : ℕ)
    → FitsWindow window active interval
    → Fits (
        close_window now (record {
          fast_poll_until = window;
          active_polling = active;
          update_interval = interval;
        }))
unfolding close_window
close_window-Fits none active interval now h = h
close_window-Fits (some until) active interval now h =
    if_rule Fits (ltb until now)
      (λ e. sym (ap (λ b. if b then active_scan_interval else scan_interval) h)) (λ e. h)

adapt-Fits :
    (should : Bool) (window : Option ℕ) (active : Bool) (interval : ℕ)
    → FitsWindow window active interval
    → Fits (
        adapt should (record {
          fast_poll_until = window;
          active_polling = active;
          update_interval = interval;
        }))
unfolding adapt
adapt-Fits true none true interval h = h
adapt-Fits true none false interval h = refl
adapt-Fits false none true interval h = refl
adapt-Fits false none false interval h = h
adapt-Fits true (some until) true interval h = h
adapt-Fits true (some until) false interval h = h
adapt-Fits false (some until) true interval h = refl
adapt-Fits false (some until) false interval h = h

pub adjust-Fits :
    (state : MachineState) (now : ℕ) (p : Polling) → Fits p → Fits (adjust state now p)
unfolding adjust
adjust-Fits state now p h =
    adapt-Fits (is_active_state state) _ _ _
      (close_window-Fits p.fast_poll_until p.active_polling p.update_interval now h)

-- No window is open at a time after its deadline.
abbrev pub Over : Option ℕ → ℕ → Type 0
Over none now = Unit {0}
Over (some until) now = until < now

-- What holds once a window is over: the interval is the one that the machine's state asks for.
pub record Settled (should : Bool) (p : Polling) : Type 0 where
  pub closed : p.fast_poll_until ≡ none
  pub mode : p.active_polling ≡ should
  pub interval : p.update_interval ≡ (if should then active_scan_interval else scan_interval)

adapt-Settled :
    (should active : Bool) (interval : ℕ)
    → FitsWindow none active interval
    → Settled should (
        adapt should
          (record { fast_poll_until = none; active_polling = active; update_interval = interval }))
unfolding adapt
adapt-Settled true true interval h = record { closed = refl; mode = refl; interval = h }
adapt-Settled true false interval h = record { closed = refl; mode = refl; interval = refl }
adapt-Settled false true interval h = record { closed = refl; mode = refl; interval = refl }
adapt-Settled false false interval h = record { closed = refl; mode = refl; interval = h }

close_window-Settled :
    (should : Bool) (window : Option ℕ) (active : Bool) (interval now : ℕ)
    → FitsWindow window active interval
    → Over window now
    → Settled should (
        adapt should (
          close_window now (record {
            fast_poll_until = window;
            active_polling = active;
            update_interval = interval;
          })))
unfolding close_window
close_window-Settled should none active interval now h over = adapt-Settled should active interval h
close_window-Settled should (some until) active interval now h over =
    if_rule (λ (p : Polling). Settled should (adapt should p)) (ltb until now)
      (λ e.
        adapt-Settled should active scan_interval
          (sym (ap (λ b. if b then active_scan_interval else scan_interval) h)))
      (λ e. absurd (ground arith))

pub adjust-Settled :
    (state : MachineState) (now : ℕ) (p : Polling)
    → Fits p
    → Over p.fast_poll_until now
    → Settled (is_active_state state) (adjust state now p)
unfolding adjust
adjust-Settled state now p h over =
    close_window-Settled (is_active_state state) p.fast_poll_until p.active_polling
      p.update_interval now h over
