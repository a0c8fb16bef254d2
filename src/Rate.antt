-- ===== src/Rate.antt =====
-- `RateLimitTracker` (custom_components/delonghi_coffee/logger.py). Times are whole seconds, read from
-- a clock that does not run backwards.
pub mod Laws
mod Examples
use delonghi_ha.Prelude.{
  ℕ, ◌+◌, List, [], ◌∷◌, ◌++◌, Bool, true, false, not, ◌&&◌, ltb, leb, length, if◌then◌else◌,
}

pub record Tracker : Type 0 where
  pub window : ℕ
  pub calls : List ℕ
  pub total : ℕ
  pub warned : Bool

abbrev pub warn_threshold : ℕ
warn_threshold = 200

-- `while self._calls and self._calls[0] < cutoff: self._calls.popleft()`
unfoldable pub expire : ℕ → ℕ → List ℕ → List ℕ
expire now window [] = []
expire now window (c ∷ rest) = if ltb (c + window) now then expire now window rest else c ∷ rest

-- `_warned` after a call, by the rate.
unfoldable pub warned_after : ℕ → Bool → Bool
warned_after rate warned =
    if leb warn_threshold rate && not warned
    then true
    else if ltb (rate + 20) warn_threshold
    then false
    else warned

-- `record`: the rate, and the state after it.
unfoldable pub record_call : ℕ → Tracker → ℕ × Tracker
record_call now t =
    let kept = expire now t.window (t.calls ++ (now ∷ [])) in
    (
      length kept,
      record t { calls = kept; total = t.total + 1; warned = warned_after (length kept) t.warned },
    )

unfoldable pub current_rate : ℕ → Tracker → ℕ × Tracker
current_rate now t =
    let kept = expire now t.window t.calls in (length kept, record t { calls = kept })
