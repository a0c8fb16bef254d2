-- ===== src/Coordinator/Update/Laws.antt =====
-- What a cycle leaves of the polling, and when it fails.
use delonghi_ha.Prelude.{
  ℕ, ◌+◌, Bool, true, false, leb, Option, none, some, ◌≡◌, refl, ap, ◌∙◌, ◌⊎◌, inl, inr, if_rule,
}
use delonghi_ha.Prelude.Raise.{
  auth, api, unsupported, value_error, index_error, key_error, transport, http, Result, ok, raise,
}
use delonghi_ha.Coordinator.Action.{
  modify, go_on, ◌>>=◌, ◌>>◌, Leaves, lift-Leaves, modify-Leaves, bind-Leaves,
}
use delonghi_ha.Coordinator.Polling.{Polling, adjust}
use delonghi_ha.Coordinator.Assess.{CloudStatus}
use delonghi_ha.Coordinator.Start.{LanConfig}
use delonghi_ha.Coordinator.Update.{
  Coordinator, CycleCalls, keepalive_interval, last_state, loaded, load_baseline, noted, keepalive,
  identified, identify, fetch_config, fetch_lan_config, end_refresh, full_refresh, need_full,
  finish_cycle, refresh_caches, fetch_data, adjust_polling, update_body, update_data, refresh,
}

module _ {P : Type 0} where
  abbrev polling_of : Coordinator P → Polling
  polling_of s = s.polling

  noted-Leaves : (r : Result (Unit {0})) (now : ℕ) → Leaves polling_of (noted r now)
  unfolding noted
  noted-Leaves (ok done) now = record { at = λ s. refl }
  noted-Leaves (raise auth) now = record { at = λ s. refl }
  noted-Leaves (raise api) now = record { at = λ s. refl }
  noted-Leaves (raise unsupported) now = record { at = λ s. refl }
  noted-Leaves (raise value_error) now = record { at = λ s. refl }
  noted-Leaves (raise index_error) now = record { at = λ s. refl }
  noted-Leaves (raise key_error) now = record { at = λ s. refl }
  noted-Leaves (raise transport) now = record { at = λ s. refl }
  noted-Leaves (raise (http n)) now = record { at = λ s. refl }

  keepalive-Leaves : (c : CycleCalls P) (now : ℕ) → Leaves polling_of (keepalive c now)
  unfolding keepalive
  keepalive-Leaves c now = record {
    at = λ s.
        if_rule (λ (run : Result (Unit {0}) × Coordinator P). run.1.polling ≡ s.polling)
          (leb (s.last_keepalive + keepalive_interval) now) (λ e. (noted-Leaves _ now).at s)
          (λ e. refl);
  }

  identified-Leaves : (r : Result (Unit {0})) → Leaves polling_of (identified r)
  unfolding identified
  identified-Leaves (ok done) = record { at = λ s. refl }
  identified-Leaves (raise e) = record { at = λ s. refl }

  identify-Leaves : (c : CycleCalls P) → Leaves polling_of (identify c)
  unfolding identify
  identify-Leaves c = record {
    at = λ s.
        if_rule (λ (run : Result (Unit {0}) × Coordinator P). run.1.polling ≡ s.polling)
          s.model_identified (λ e. refl) (λ e. (identified-Leaves c.transcode).at s);
  }

  fetch_config-Leaves :
      (known : Option LanConfig) (given : Result LanConfig)
      → Leaves polling_of (fetch_config known given)
  unfolding fetch_config
  fetch_config-Leaves (some known) given = record { at = λ s. refl }
  fetch_config-Leaves none (ok given) = record { at = λ s. refl }
  fetch_config-Leaves none (raise e) = record { at = λ s. refl }

  fetch_lan_config-Leaves : (c : CycleCalls P) → Leaves polling_of (fetch_lan_config c)
  unfolding fetch_lan_config
  fetch_lan_config-Leaves c = record {
    at = λ s. (fetch_config-Leaves s.lan.config c.lan_config).at s;
  }

  full_refresh-Leaves : (c : CycleCalls P) (now : ℕ) → Leaves polling_of (full_refresh c now)
  unfolding full_refresh end_refresh
  full_refresh-Leaves c now = bind-Leaves _ _ _ (lift-Leaves _ _) (λ woken.
      bind-Leaves _ _ _ (lift-Leaves _ _) (λ props.
        bind-Leaves _ _ _ (modify-Leaves _ _ (λ s. refl)) (λ cached.
          bind-Leaves _ _ _ (lift-Leaves _ _) (λ parsed.
            bind-Leaves _ _ _ (identify-Leaves c) (λ known.
              bind-Leaves _ _ _ (fetch_lan_config-Leaves c) (λ fetched.
                bind-Leaves _ _ _ (modify-Leaves _ _ (λ s. refl)) (λ lan.
                  bind-Leaves _ _ _ (modify-Leaves _ _ (λ s. refl))
                    (λ catalog. modify-Leaves _ _ (λ s. refl)))))))))

  refresh_caches-Leaves :
      (full : Bool) (c : CycleCalls P) (now : ℕ) → Leaves polling_of (refresh_caches full c now)
  unfolding refresh_caches
  refresh_caches-Leaves true c now = full_refresh-Leaves c now
  refresh_caches-Leaves false c now = keepalive-Leaves c now

  finish_cycle-Leaves :
      (c : CycleCalls P) (now : ℕ) (st : CloudStatus) → Leaves polling_of (finish_cycle c now st)
  unfolding finish_cycle
  finish_cycle-Leaves c now st = record { at = λ s. refl }

  fetch_data-Leaves :
      (full : Bool) (c : CycleCalls P) (now : ℕ) → Leaves polling_of (fetch_data full c now)
  unfolding fetch_data
  fetch_data-Leaves full c now = bind-Leaves _ _ _ (lift-Leaves _ _) (λ st.
      bind-Leaves _ _ _ (modify-Leaves _ _ (λ s. refl)) (λ seeded.
        bind-Leaves _ _ _ (refresh_caches-Leaves full c now)
          (λ cached. finish_cycle-Leaves c now st)))

  -- The first step sets the flag, or the store of the baselines raised and nothing was set.
  abbrev pub FirstStep : CycleCalls P → Coordinator P → Result (Unit {0}) × Coordinator P → Type 0
  FirstStep c s (ok done, t) = t ≡ record s { baseline_loaded = true }
  FirstStep c s (raise e, t) = (t ≡ s) × (s.baseline_loaded ≡ false) × (c.load ≡ raise e)

  loaded-FirstStep :
      (c : CycleCalls P) (s : Coordinator P) (given : Result (Unit {0}))
      → c.load ≡ given
      → s.baseline_loaded ≡ false
      → FirstStep c s (loaded given s)
  unfolding loaded
  loaded-FirstStep c s (ok done) e h = refl
  loaded-FirstStep c s (raise failure) e h = (refl, h, e)

  pub load_baseline-FirstStep :
      (c : CycleCalls P) (s : Coordinator P) → FirstStep c s (load_baseline c s)
  unfolding load_baseline
  load_baseline-FirstStep c s =
      if_rule (FirstStep c s) s.baseline_loaded (λ e. ap (λ b. record s { baseline_loaded = b }) e)
        (λ e. loaded-FirstStep c s c.load refl e)

  -- The polling after a cycle: adjusted, unless the store of the baselines raised.
  after_first :
      (full : Bool) (c : CycleCalls P) (now : ℕ) (s : Coordinator P)
      (run : Result (Unit {0}) × Coordinator P)
      → FirstStep c s run
      → (s.baseline_loaded ≡ true) ⊎ (c.load ≡ ok tt)
      → (go_on (λ _. modify (adjust_polling now) >> fetch_data full c now) run).1.polling
        ≡ adjust (last_state s.last_data) now s.polling
  unfolding ◌>>=◌ modify
  after_first full c now s (ok done, t) h ready =
      (fetch_data-Leaves full c now).at (adjust_polling now t)
      ∙ ap (λ (u : Coordinator P). adjust (last_state u.last_data) now u.polling) h
  after_first full c now s (raise e, t) (h, fresh, failed) (inl ready) = cc
  after_first full c now s (raise e, t) (h, fresh, failed) (inr ready) = cc

  pub refresh-polling :
      (c : CycleCalls P) (now : ℕ) (s : Coordinator P)
      → (s.baseline_loaded ≡ true) ⊎ (c.load ≡ ok tt)
      → (refresh c now s).polling ≡ adjust (last_state s.last_data) now s.polling
  unfolding refresh update_data update_body ◌>>=◌
  refresh-polling c now s ready =
      after_first (need_full now s) c now s (load_baseline c s) (load_baseline-FirstStep c s) ready

  failed_first :
      (full : Bool) (c : CycleCalls P) (now : ℕ) (s : Coordinator P)
      (run : Result (Unit {0}) × Coordinator P)
      → FirstStep c s run
      → ((go_on (λ _. modify (adjust_polling now) >> fetch_data full c now) run).1.polling
          ≡ adjust (last_state s.last_data) now s.polling)
        ⊎ ((go_on (λ _. modify (adjust_polling now) >> fetch_data full c now) run).1.polling
            ≡ s.polling)
  unfolding ◌>>=◌ modify
  failed_first full c now s (ok done, t) h = inl (
      (fetch_data-Leaves full c now).at (adjust_polling now t)
      ∙ ap (λ (u : Coordinator P). adjust (last_state u.last_data) now u.polling) h)
  failed_first full c now s (raise e, t) (h, fresh, failed) =
      inr (ap (λ (u : Coordinator P). u.polling) h)

  pub refresh-polling_either :
      (c : CycleCalls P) (now : ℕ) (s : Coordinator P)
      → ((refresh c now s).polling ≡ adjust (last_state s.last_data) now s.polling)
        ⊎ ((refresh c now s).polling ≡ s.polling)
  unfolding refresh update_data update_body ◌>>=◌
  refresh-polling_either c now s =
      failed_first (need_full now s) c now s (load_baseline c s) (load_baseline-FirstStep c s)
