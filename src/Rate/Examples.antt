-- ===== src/Rate/Examples.antt =====
-- A run of the tracker.
use delonghi_ha.Prelude.{[], ◌∷◌, false, ◌≡◌, refl, arith}
use delonghi_ha.Rate.{Tracker, expire, record_call, current_rate}
use delonghi_ha.Rate.Laws.{Tracks, record_call-Tracks}

-- After calls at 100 and 3000, and one at 3800 that dropped the first.
abbrev tracker : Tracker
tracker = record { window = 3600; calls = 3000 ∷ 3800 ∷ []; total = 3; warned = false }

tracker-Tracks : Tracks (100 ∷ 3000 ∷ 3800 ∷ []) 3800 tracker
tracker-Tracks = record {
  ascending = (omega arith, (omega arith, (tt, tt)));
  past = omega arith;
  held = refl;
  counted = refl;
}

record_call-Tracks_example :
    ((record_call 7000 tracker).0 ≡ 2)
    × Tracks (100 ∷ 3000 ∷ 3800 ∷ 7000 ∷ []) 7000 (record_call 7000 tracker).1
record_call-Tracks_example =
    record_call-Tracks (100 ∷ 3000 ∷ 3800 ∷ []) 3800 7000 tracker tracker-Tracks (omega arith)

rate_later : (current_rate 7000 tracker).0 ≡ 1
unfolding current_rate expire
rate_later = refl
