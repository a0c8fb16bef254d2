-- ===== src/Coordinator/Update/Alive.antt =====
-- The keepalive of the cloud session over a cycle.
use delonghi_ha.Prelude.{
  ℕ, suc, ◌+◌, ◌<◌, ◌≤◌, Bool, true, false, leb, ◌≡◌, refl, ap, ◌⊎◌, inl, inr, arith, if_rule,
}
use delonghi_ha.Prelude.Raise.{
  auth, api, unsupported, value_error, index_error, key_error, transport, http, Result, ok, raise,
}
use delonghi_ha.Switch.Commands.{ping_or_monitor}
use delonghi_ha.Coordinator.Action.{
  modify, ◌>>◌, Holds, Ensures, lift-Ensures, modify-Ensures, anything-Ensures, bind-Ensures,
}
use delonghi_ha.Coordinator.Assess.{CloudStatus, UpdateData}
use delonghi_ha.Coordinator.Update.{
  Coordinator, CycleCalls, keepalive_interval, loaded, load_baseline, noted, keepalive, end_refresh,
  full_refresh, need_full, finish_cycle, refresh_caches, fetch_data, adjust_polling, update_body,
  updated, handled, update_data,
}

-- The keepalive after a cycle that is `full` or light, at `now`: `beat` and `failures` are the last
-- keepalive and the failures of before, `answer` is what the ping gives, or the monitor refresh in its
-- place.
pub data Kept (full : Bool) (beat failures now : ℕ) (answer : Result (Unit {0})) (last count : ℕ)
    : Type 0 where
  refreshed : full ≡ true → last ≡ now → count ≡ 0 → Kept full beat failures now answer last count
  waited :
      full ≡ false
      → now < beat + 240
      → last ≡ beat
      → count ≡ failures
      → Kept full beat failures now answer last count
  answered :
      full ≡ false
      → beat + 240 ≤ now
      → answer ≡ ok tt
      → last ≡ now
      → count ≡ 0
      → Kept full beat failures now answer last count
  missed :
      full ≡ false
      → beat + 240 ≤ now
      → (answer ≡ raise auth) ⊎ (answer ≡ raise api) ⊎ (answer ≡ raise unsupported)
      → last ≡ beat
      → count ≡ suc failures
      → Kept full beat failures now answer last count

module _ {P : Type 0} (beat failures now : ℕ) where
  -- Before the keepalive.
  abbrev Before : Coordinator P → Type 0
  Before s = (s.last_keepalive ≡ beat) × (s.keepalive_failures ≡ failures)

  -- After it.
  abbrev After : Bool → Result (Unit {0}) → Coordinator P → Type 0
  After full answer s = Kept full beat failures now answer s.last_keepalive s.keepalive_failures

  noted-Ensures :
      (r : Result (Unit {0})) → beat + 240 ≤ now → Ensures Before (noted r now) (After false r)
  unfolding noted
  noted-Ensures (ok done) due = record { at = λ s h. answered refl due refl refl refl }
  noted-Ensures (raise auth) due = record {
    at = λ s h. missed refl due (inl refl) h.0 (ap suc h.1);
  }
  noted-Ensures (raise api) due = record {
    at = λ s h. missed refl due (inr (inl refl)) h.0 (ap suc h.1);
  }
  noted-Ensures (raise unsupported) due = record {
    at = λ s h. missed refl due (inr (inr refl)) h.0 (ap suc h.1);
  }
  noted-Ensures (raise value_error) due = record { at = λ s h. tt }
  noted-Ensures (raise index_error) due = record { at = λ s h. tt }
  noted-Ensures (raise key_error) due = record { at = λ s h. tt }
  noted-Ensures (raise transport) due = record { at = λ s h. tt }
  noted-Ensures (raise (http n)) due = record { at = λ s h. tt }

  keepalive-Ensures :
      (c : CycleCalls P)
      → Ensures Before (keepalive c now) (After false (ping_or_monitor c.ping c.monitor))
  unfolding keepalive
  keepalive-Ensures c = record {
    at = λ s h.
        if_rule (Holds (After false (ping_or_monitor c.ping c.monitor)))
          (leb (s.last_keepalive + keepalive_interval) now)
          (λ e. (noted-Ensures (ping_or_monitor c.ping c.monitor) (ground (arith, h.0, e))).at s h)
          (λ e. waited refl (ground (arith, h.0, e)) h.0 h.1);
  }

  full_refresh-Ensures :
      (c : CycleCalls P) (answer : Result (Unit {0}))
      → Ensures Before (full_refresh c now) (After true answer)
  unfolding full_refresh end_refresh
  full_refresh-Ensures c answer = bind-Ensures _ _ (anything-Ensures _) (λ woken.
      bind-Ensures _ _ (anything-Ensures _) (λ props.
        bind-Ensures _ _ (anything-Ensures _) (λ cached.
          bind-Ensures _ _ (anything-Ensures _) (λ parsed.
            bind-Ensures _ _ (anything-Ensures _) (λ known.
              bind-Ensures _ _ (anything-Ensures _) (λ fetched.
                bind-Ensures _ _ (anything-Ensures _) (λ lan.
                  bind-Ensures _ _ (anything-Ensures _)
                    (λ catalog. modify-Ensures _ (λ s h. refreshed refl refl refl)))))))))

  refresh_caches-Ensures :
      (full : Bool) (c : CycleCalls P)
      → Ensures Before (refresh_caches full c now) (After full (ping_or_monitor c.ping c.monitor))
  unfolding refresh_caches
  refresh_caches-Ensures true c = full_refresh-Ensures c _
  refresh_caches-Ensures false c = keepalive-Ensures c

  finish_cycle-Ensures :
      (c : CycleCalls P) (st : CloudStatus) (full : Bool) (answer : Result (Unit {0}))
      → Ensures (After full answer) (finish_cycle c now st) (After full answer)
  unfolding finish_cycle
  finish_cycle-Ensures c st full answer = record { at = λ s h. h }

  fetch_data-Ensures :
      (full : Bool) (c : CycleCalls P)
      → Ensures Before (fetch_data full c now) (After full (ping_or_monitor c.ping c.monitor))
  unfolding fetch_data
  fetch_data-Ensures full c = bind-Ensures _ _ (lift-Ensures _) (λ st.
      bind-Ensures _ _ (modify-Ensures _ (λ s h. h)) (λ seeded.
        bind-Ensures _ _ (refresh_caches-Ensures full c)
          (λ cached. finish_cycle-Ensures c st full _)))

  loaded-Ensures : (r : Result (Unit {0})) → Ensures Before (loaded r) Before
  unfolding loaded
  loaded-Ensures (ok done) = record { at = λ s h. h }
  loaded-Ensures (raise e) = record { at = λ s h. tt }

  load_baseline-Ensures : (c : CycleCalls P) → Ensures Before (load_baseline c) Before
  unfolding load_baseline
  load_baseline-Ensures c = record {
    at = λ s h.
        if_rule (Holds Before) s.baseline_loaded (λ e. h) (λ e. (loaded-Ensures c.load).at s h);
  }

  body-Ensures :
      (full : Bool) (c : CycleCalls P)
      → Ensures Before
          (load_baseline c >> (modify (adjust_polling now) >> fetch_data full c now))
          (After full (ping_or_monitor c.ping c.monitor))
  body-Ensures full c = bind-Ensures _ _ (load_baseline-Ensures c) (λ ready.
      bind-Ensures _ _ (modify-Ensures _ (λ s h. h)) (λ adjusted. fetch_data-Ensures full c))

module _ {P : Type 0} where
  succeeded :
      (After : Coordinator P → Type 0) (d : UpdateData) (run : Result UpdateData × Coordinator P)
      → Holds After run
      → handled run.0 ≡ updated d
      → After run.1
  unfolding handled
  succeeded After d (ok given, t) h e = h
  succeeded After d (raise auth, t) h e = cc
  succeeded After d (raise api, t) h e = cc
  succeeded After d (raise unsupported, t) h e = cc
  succeeded After d (raise value_error, t) h e = cc
  succeeded After d (raise index_error, t) h e = cc
  succeeded After d (raise key_error, t) h e = cc
  succeeded After d (raise transport, t) h e = cc
  succeeded After d (raise (http n), t) h e = cc

  -- The keepalive after a cycle that gives data. A full refresh counts as one, sent now and without
  -- failures, whatever its ping gave. A light cycle less than 4 minutes after the last keepalive leaves it
  -- and its failures. A later light cycle notes it as sent now, without failures, if the ping, or the
  -- monitor refresh in its place, returned; and it counts one more failure, and leaves the time of the
  -- last, if that raised DeLonghiApiError or DeLonghiAuthError (or the library's subclass of the former).
  pub update_data-keepalive :
      (c : CycleCalls P) (now : ℕ) (s : Coordinator P) (d : UpdateData)
      → (update_data c now s).0 ≡ updated d
      → Kept
          (need_full now s)
          s.last_keepalive
          s.keepalive_failures
          now
          (ping_or_monitor c.ping c.monitor)
          (update_data c now s).1.last_keepalive
          (update_data c now s).1.keepalive_failures
  unfolding update_data update_body
  update_data-keepalive c now s d e =
      succeeded (After s.last_keepalive s.keepalive_failures now (need_full now s) _) d _
        ((body-Ensures s.last_keepalive s.keepalive_failures now (need_full now s) c).at s
          (refl, refl))
        e
