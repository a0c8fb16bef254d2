-- ===== src/Coordinator/Assess/History.antt =====
-- A run of readings of the monitor: what the tracker knows of it.
use delonghi_ha.Prelude.{
  ℕ, ◌+◌, ◌<◌, ◌≤◌, List, [], ◌∷◌, Bool, true, false, ◌&&◌, ==_iff, Option, none, some, ◌≡◌, refl,
  sym, ap, ap₂, ◌∙◌, arith, if_rule, All,
}
use delonghi_ha.Coordinator.Assess.{
  monitor_stale_timeout, MonitorTracker, same_raw, is_repeated, track, is_timed_out,
}

pub both : {x y : Bool} → (x && y) ≡ true → (x ≡ true) × (y ≡ true)
both {x = true} {y = y} e = (refl, e)
both {x = false} {y = y} e = (e, absurd (ground (e, arith)))

same_raw-eq : (a b : List ℕ) → same_raw a b ≡ true → a ≡ b
unfolding same_raw
same_raw-eq [] [] h = refl
same_raw-eq [] (b ∷ rest) h = cc
same_raw-eq (a ∷ rest) [] h = cc
same_raw-eq (a ∷ rest) (b ∷ others) h =
    ap₂ (◌∷◌) ((==_iff a b).0 (both h).0) (same_raw-eq rest others (both h).1)

is_repeated-eq : (raw last : Option (List ℕ)) → is_repeated raw last ≡ true → raw ≡ last
unfolding is_repeated
is_repeated-eq none last h = cc
is_repeated-eq (some raw) none h = cc
is_repeated-eq (some raw) (some last) h = ap some (same_raw-eq raw last h)

-- A status that was read: its payload, and the clock then.
pub record Reading : Type 0 where
  pub raw : Option (List ℕ)
  pub clock : ℕ

-- A run of readings, the newest first.
unfoldable pub track_all : List Reading → MonitorTracker → MonitorTracker
track_all [] t = t
track_all (r ∷ older) t = track r.raw r.clock (track_all older t)

All-map :
    (P Q : Reading → Type 0)
    → ((r : Reading) → P r → Q r)
    → (rs : List Reading) → All P rs
    → All Q rs
All-map P Q f [] h = tt
All-map P Q f (r ∷ older) (p, ps) = (f r p, All-map P Q f older ps)

-- The clock does not go back.
abbrev pub Ordered : List Reading → Type 0
Ordered [] = Unit {0}
Ordered (r ∷ older) = All (λ o. o.clock ≤ r.clock) older × Ordered older

abbrev Since : MonitorTracker → Reading → Type 0
Since t r = t.last_changed < r.clock → r.raw ≡ t.last_monitor_raw

track-Since :
    (r : Reading) (older : List Reading) (t : MonitorTracker)
    → All (λ o. o.clock ≤ r.clock) older
    → All (Since t) older
    → All (Since (track r.raw r.clock t)) (r ∷ older)
unfolding track
track-Since r older t before h =
    if_rule (λ u. All (Since u) (r ∷ older)) (is_repeated r.raw t.last_monitor_raw)
      (λ e. (
        (λ late. refl),
        All-map (Since t) _ (λ o p late. p late ∙ sym (is_repeated-eq r.raw _ e)) older h,
      ))
      (λ e.
        ((λ late. refl), All-map _ _ (λ o p late. absurd (omega (arith, p, late))) older before))

track_all-Since :
    (rs : List Reading) (t : MonitorTracker) → Ordered rs → All (Since (track_all rs t)) rs
unfolding track_all
track_all-Since [] t h = tt
track_all-Since (r ∷ older) t (before, h) =
    track-Since r older (track_all older t) before (track_all-Since older t h)

-- All readings of the last 45 minutes have the same payload.
abbrev pub Unchanged : ℕ → Option (List ℕ) → List Reading → Type 0
Unchanged now raw rs = All (λ r. now ≤ r.clock + monitor_stale_timeout → r.raw ≡ raw) rs

pub track_all-Unchanged :
    (rs : List Reading) (t : MonitorTracker) (now : ℕ)
    → Ordered rs
    → is_timed_out now (track_all rs t) ≡ true
    → Unchanged now (track_all rs t).last_monitor_raw rs
unfolding is_timed_out
track_all-Unchanged rs t now h e =
    All-map (Since (track_all rs t)) _ (λ r p recent. p (ground (arith, e, recent))) rs
      (track_all-Since rs t h)

track-raw :
    (raw : Option (List ℕ)) (clock : ℕ) (t : MonitorTracker)
    → (track raw clock t).last_monitor_raw ≡ raw
unfolding track
track-raw raw clock t =
    if_rule (λ (u : MonitorTracker). u.last_monitor_raw ≡ raw) (is_repeated raw t.last_monitor_raw)
      (λ e. refl) (λ e. refl)

pub track_all-raw :
    (r : Reading) (older : List Reading) (t : MonitorTracker)
    → (track_all (r ∷ older) t).last_monitor_raw ≡ r.raw
unfolding track_all
track_all-raw r older t = track-raw r.raw r.clock (track_all older t)
