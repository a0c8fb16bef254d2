-- ===== src/Coordinator/Update/Outcome.antt =====
-- How a cycle ends: its data, or the exception of the library that its handlers give.
use delonghi_ha.Prelude.{
  ℕ, ◌+◌, Bool, true, false, leb, Option, if◌then◌else◌, ◌≡◌, refl, ap, ◌∙◌, ◌⊎◌, inl, inr, if_rule,
}
use delonghi_ha.Prelude.Raise.{
  Exception, auth, api, unsupported, value_error, index_error, key_error, transport, http, Result,
  ok, raise,
}
use delonghi_ha.Switch.Commands.{ping_or_monitor}
use delonghi_ha.Coordinator.Action.{lift, modify, bind-ok, bind-raise}
use delonghi_ha.Coordinator.Assess.{
  CloudStatus, get_cloud_status, track, is_timed_out, UpdateData, data_of,
}
use delonghi_ha.Coordinator.Update.{
  Coordinator, CycleCalls, keepalive_interval, loaded, load_baseline, noted, keepalive, need_full,
  finish_cycle, refresh_caches, fetch_data, adjust_polling, update_body, Refreshed, updated,
  config_entry_auth_failed, update_failed, handled, update_data, kept_data, refresh,
}

-- What the keepalive's handler takes.
abbrev pub Caught : Result (Unit {0}) → Type 0
Caught (ok done) = Unit {0}
Caught (raise auth) = Unit {0}
Caught (raise api) = Unit {0}
Caught (raise unsupported) = Unit {0}
Caught (raise value_error) = ⊥
Caught (raise index_error) = ⊥
Caught (raise key_error) = ⊥
Caught (raise transport) = ⊥
Caught (raise (http n)) = ⊥

-- The exception of the library for one of the client's: only an authentication error asks the user to
-- log in again.
abbrev pub is_auth : Exception → Bool
is_auth auth = true
is_auth api = false
is_auth unsupported = false
is_auth value_error = false
is_auth index_error = false
is_auth key_error = false
is_auth transport = false
is_auth (http n) = false

abbrev pub library_error : Exception → Refreshed
library_error e = if is_auth e then config_entry_auth_failed else update_failed

handled-library_error : (e : Exception) → handled (raise e) ≡ library_error e
unfolding handled
handled-library_error auth = refl
handled-library_error api = refl
handled-library_error unsupported = refl
handled-library_error value_error = refl
handled-library_error index_error = refl
handled-library_error key_error = refl
handled-library_error transport = refl
handled-library_error (http n) = refl

-- The library keeps the data of before.
kept_data-handled :
    (e : Exception) (last : Option UpdateData) → kept_data (handled (raise e)) last ≡ last
unfolding kept_data handled
kept_data-handled auth last = refl
kept_data-handled api last = refl
kept_data-handled unsupported last = refl
kept_data-handled value_error last = refl
kept_data-handled index_error last = refl
kept_data-handled key_error last = refl
kept_data-handled transport last = refl
kept_data-handled (http n) last = refl

module _ {P : Type 0} where
  -- A step that returns and leaves the tracker.
  abbrev Returns : Coordinator P → Result (Unit {0}) × Coordinator P → Type 0
  Returns s run = (t : Coordinator P) × (run ≡ (ok tt, t)) × (t.tracker ≡ s.tracker)

  noted-Returns :
      (r : Result (Unit {0})) (now : ℕ) (s : Coordinator P) → Caught r → Returns s (noted r now s)
  unfolding noted
  noted-Returns (ok done) now s h = (_, refl, refl)
  noted-Returns (raise auth) now s h = (_, refl, refl)
  noted-Returns (raise api) now s h = (_, refl, refl)
  noted-Returns (raise unsupported) now s h = (_, refl, refl)
  noted-Returns (raise value_error) now s h = absurd h
  noted-Returns (raise index_error) now s h = absurd h
  noted-Returns (raise key_error) now s h = absurd h
  noted-Returns (raise transport) now s h = absurd h
  noted-Returns (raise (http n)) now s h = absurd h

  keepalive-Returns :
      (c : CycleCalls P) (now : ℕ) (s : Coordinator P)
      → Caught (ping_or_monitor c.ping c.monitor)
      → Returns s (keepalive c now s)
  unfolding keepalive
  keepalive-Returns c now s h =
      if_rule (Returns s) (leb (s.last_keepalive + keepalive_interval) now)
        (λ e. noted-Returns (ping_or_monitor c.ping c.monitor) now s h) (λ e. (s, refl, refl))

  finish_cycle-data :
      (c : CycleCalls P) (now : ℕ) (st : CloudStatus) (s t : Coordinator P)
      → t.tracker ≡ s.tracker
      → (finish_cycle c now st t).0
        ≡ ok (data_of (is_timed_out now (track st.monitor_raw c.clock s.tracker)) st)
  unfolding finish_cycle
  finish_cycle-data c now st s t e =
      ap (λ k. ok (data_of (is_timed_out now (track st.monitor_raw c.clock k)) st)) e

  light_fetch :
      (c : CycleCalls P) (now : ℕ) (st : CloudStatus) (s : Coordinator P)
      → get_cloud_status c.status ≡ ok st
      → Caught (ping_or_monitor c.ping c.monitor)
      → (fetch_data false c now s).0
        ≡ ok (data_of (is_timed_out now (track st.monitor_raw c.clock s.tracker)) st)
  unfolding fetch_data lift modify refresh_caches
  light_fetch c now st s read caught =
      let alive = keepalive-Returns c now _ caught in
      ap (λ run. run.0)
        (bind-ok _ _ s (ap (λ g. (g, s)) read) ∙ bind-ok _ _ s refl ∙ bind-ok _ _ _ alive.1)
      ∙ finish_cycle-data c now st s alive.0 alive.2

  failed_fetch :
      (full : Bool) (c : CycleCalls P) (now : ℕ) (e : Exception) (s : Coordinator P)
      → get_cloud_status c.status ≡ raise e
      → fetch_data full c now s ≡ (raise e, s)
  unfolding fetch_data lift
  failed_fetch full c now e s h = bind-raise _ _ s (ap (λ g. (g, s)) h)

  -- The state when the status is read.
  abbrev prepared : ℕ → Coordinator P → Coordinator P
  prepared now s = adjust_polling now (record s { baseline_loaded = true })

  load_ready :
      (c : CycleCalls P) (s : Coordinator P)
      → (s.baseline_loaded ≡ true) ⊎ (c.load ≡ ok tt)
      → load_baseline c s ≡ (ok tt, record s { baseline_loaded = true })
  unfolding load_baseline loaded
  load_ready c s (inl e) =
      ap (λ b. if b then (ok tt, s) else loaded c.load s) e
      ∙ ap (λ b. (ok tt, record s { baseline_loaded = b })) e
  load_ready c s (inr e) =
      if_rule (λ run. run ≡ (ok tt, record s { baseline_loaded = true })) s.baseline_loaded
        (λ h. ap (λ b. (ok tt, record s { baseline_loaded = b })) h) (λ h. ap (λ g. loaded g s) e)

  body_prepared :
      (c : CycleCalls P) (now : ℕ) (s : Coordinator P)
      → (s.baseline_loaded ≡ true) ⊎ (c.load ≡ ok tt)
      → update_body c now s ≡ fetch_data (need_full now s) c now (prepared now s)
  unfolding update_body modify
  body_prepared c now s ready = bind-ok _ _ s (load_ready c s ready) ∙ bind-ok _ _ _ refl

  -- How a cycle ends when the store of the baselines was loaded, or loads now.
  pub record CycleEnds (c : CycleCalls P) (now : ℕ) (s : Coordinator P) : Type 0 where
    pub light :
        (st : CloudStatus)
        → get_cloud_status c.status ≡ ok st
        → need_full now s ≡ false
        → Caught (ping_or_monitor c.ping c.monitor)
        → (update_data c now s).0
          ≡ updated (data_of (is_timed_out now (track st.monitor_raw c.clock s.tracker)) st)
    pub failed :
        (e : Exception)
        → get_cloud_status c.status ≡ raise e
        → ((update_data c now s).0 ≡ library_error e)
          × (refresh c now s ≡ adjust_polling now (record s { baseline_loaded = true }))

  -- If the store of the baselines was loaded or loads now, a light cycle gives the data of the status,
  -- whether its keepalive was not due, was sent, or failed with one of the client's exceptions; and if the
  -- status raises, any cycle ends with the exception of the library for that, ConfigEntryAuthFailed for an
  -- authentication error and UpdateFailed for all others, and changes only the polling and the flag.
  pub update_data-CycleEnds :
      (c : CycleCalls P) (now : ℕ) (s : Coordinator P)
      → (s.baseline_loaded ≡ true) ⊎ (c.load ≡ ok tt)
      → CycleEnds c now s
  unfolding update_data refresh handled
  update_data-CycleEnds c now s ready = record {
    light = λ st read small caught.
        ap (λ run. handled run.0) (body_prepared c now s ready)
        ∙ ap (λ b. handled (fetch_data b c now (prepared now s)).0) small
        ∙ ap handled (light_fetch c now st (prepared now s) read caught);
    failed = λ e read.
        let whole : update_body c now s ≡ (raise e, prepared now s) =
          body_prepared c now s ready
          ∙ failed_fetch (need_full now s) c now e (prepared now s) read in
        (
          ap (λ run. handled run.0) whole ∙ handled-library_error e,
          ap (λ run. record run.1 { last_data = kept_data (handled run.0) run.1.last_data }) whole
              ∙ ap (λ d. record (prepared now s) { last_data = d })
                  (kept_data-handled e s.last_data),
        );
  }
