-- ===== src/Coordinator/Trace/Laws.antt =====
-- The polling interval over every run.
use mathlib.Core.Path.{subst}
use delonghi_ha.Prelude.{ℕ, true, ◌≡◌, refl, sym, ◌⊎◌, inl, inr}
use delonghi_ha.Prelude.Raise.{ok}
use delonghi_ha.Coordinator.Polling.{is_active_state, adjust}
use delonghi_ha.Coordinator.Polling.Laws.{
  Fits, request_fast_poll-Fits, adjust-Fits, Over, Settled, adjust-Settled,
}
use delonghi_ha.Coordinator.Update.{Coordinator, CycleCalls, new_coordinator, last_state, refresh}
use delonghi_ha.Coordinator.Update.Laws.{refresh-polling, refresh-polling_either}
use delonghi_ha.Coordinator.Trace.{Step, cycle, press, Reach, here, next}

module _ (P : Type 0) where
  Step-Fits : {s t : Coordinator P} → Step P s t → Fits s.polling → Fits t.polling
  Step-Fits {s = s} (cycle c now) h = from (refresh-polling_either c now s)
    where
      from :
          ((refresh c now s).polling ≡ adjust (last_state s.last_data) now s.polling)
            ⊎ ((refresh c now s).polling ≡ s.polling)
          → Fits (refresh c now s).polling
      from (inl e) = subst Fits (sym e) (adjust-Fits (last_state s.last_data) now s.polling h)
      from (inr e) = subst Fits (sym e) h
  Step-Fits {s = s} (press duration interval now) h =
      request_fast_poll-Fits duration interval now s.polling h

  new-Fits : (now : ℕ) → Fits (new_coordinator P now).polling
  unfolding new_coordinator
  new-Fits now = refl

  -- In every state that a new coordinator reaches, the interval is 10 seconds with active polling and 60
  -- without, as long as no fast-poll window is set; and with a window set, active polling is off.
  pub Reach-Fits :
      (start : ℕ) {t : Coordinator P} → Reach P (new_coordinator P start) t → Fits t.polling
  Reach-Fits start here = new-Fits start
  Reach-Fits start (next run step) = Step-Fits step (Reach-Fits start run)

  -- In every state that a new coordinator reaches, the first cycle after the deadline closes a fast-poll
  -- window: after it the interval is the one of the machine's state, whatever the calls of the cycle
  -- give, if the store of the baselines was loaded or loads now.
  pub refresh-Settled :
      (start : ℕ) {t : Coordinator P} (c : CycleCalls P) (now : ℕ)
      → Reach P (new_coordinator P start) t
      → Over t.polling.fast_poll_until now
      → (t.baseline_loaded ≡ true) ⊎ (c.load ≡ ok tt)
      → Settled (is_active_state (last_state t.last_data)) (refresh c now t).polling
  refresh-Settled start {t = t} c now run over ready =
      subst (Settled (is_active_state (last_state t.last_data)))
        (sym (refresh-polling c now t ready))
        (adjust-Settled (last_state t.last_data) now t.polling (Reach-Fits start run) over)
