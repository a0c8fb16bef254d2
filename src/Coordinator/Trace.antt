-- ===== src/Coordinator/Trace.antt =====
-- The runs of the coordinator: update cycles, whatever their calls give, and requests for fast polling,
-- in any order. A datapoint from the local network leaves the polling and the state of the data.
pub mod Laws
use delonghi_ha.Prelude.{ℕ}
use delonghi_ha.Prelude.Int.{ℤ}
use delonghi_ha.Coordinator.Polling.{request_fast_poll}
use delonghi_ha.Coordinator.Update.{Coordinator, CycleCalls, refresh}

module _ (P : Type 0) where
  abbrev pub fast_poll : ℤ → ℤ → ℕ → Coordinator P → Coordinator P
  fast_poll duration interval now s = record s {
    polling = request_fast_poll duration interval now s.polling;
  }

  pub data Step (s : Coordinator P) : Coordinator P → Type 0 where
    cycle : (c : CycleCalls P) (now : ℕ) → Step s (refresh c now s)
    press : (duration interval : ℤ) (now : ℕ) → Step s (fast_poll duration interval now s)

  pub data Reach (s : Coordinator P) : Coordinator P → Type 0 where
    here : Reach s s
    next : {t u : Coordinator P} → Reach s t → Step t u → Reach s u
