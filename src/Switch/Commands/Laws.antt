-- ===== src/Switch/Commands/Laws.antt =====
-- When power commands are sent, and what the switch then assumes.
use delonghi_ha.Prelude.{[], ◌∷◌, Bool, false, String, ◌≡◌, ◌≢◌, refl, ◌⊎◌, inl, inr}
use delonghi_ha.Prelude.Raise.{
  Exception, auth, api, unsupported, value_error, index_error, key_error, transport, http, Result,
  ok, raise,
}
use delonghi_ha.Switch.Reconcile.{Power}
use delonghi_ha.Switch.Commands.{
  Sent, power_off, done, escaped, Calls, Run, failure, send, commanded, finish, after_send,
  turn_off, retry_power_on,
}

-- A run that is done has sent its command and stored it, with the retry `after`. Any other leaves what
-- the entity assumes as it was, and the retry `before`.
abbrev pub Carries : Bool → Sent → Bool → Bool → Power → Run → Type 0
Carries v cmd before after p r =
    ((r.outcome ≡ done) × (r.sent ≡ cmd ∷ []) × (r.power ≡ commanded v p) × (r.retry_task ≡ after))
    ⊎ ((r.outcome ≢ done) × (r.power ≡ p) × (r.retry_task ≡ before))

-- The exceptions that neither handler takes.
abbrev pub IsForeign : Exception → Type 0
IsForeign auth = ⊥
IsForeign api = ⊥
IsForeign unsupported = ⊥
IsForeign value_error = Unit {0}
IsForeign index_error = Unit {0}
IsForeign key_error = Unit {0}
IsForeign transport = Unit {0}
IsForeign (http n) = Unit {0}

failure-done : (e : Exception) → failure e ≢ done
unfolding failure
failure-done auth h = cc
failure-done api h = cc
failure-done unsupported h = cc
failure-done value_error h = cc
failure-done index_error h = cc
failure-done key_error h = cc
failure-done transport h = cc
failure-done (http n) h = cc

finish-Carries :
    (v : Bool) (cmd : Sent) (before after : Bool) (r : Result (Unit {0})) (p : Power)
    → Carries v cmd before after p (finish v cmd before after r p)
unfolding finish
finish-Carries v cmd before after (ok x) p = inl (refl, refl, refl, refl)
finish-Carries v cmd before after (raise e) p = inr (failure-done e, refl, refl)

after_send-Carries :
    (v : Bool) (cmd : Sent) (before after : Bool) (r : Result (Unit {0})) (c : Calls) (p : Power)
    → Carries v cmd before after p (after_send v cmd before after r c p)
unfolding after_send
after_send-Carries v cmd before after (ok x) c p = finish-Carries v cmd before after _ p
after_send-Carries v cmd before after (raise e) c p = inr (failure-done e, refl, refl)

-- The run ends with the exception, before the command.
abbrev pub EndsBefore : Exception → Bool → Power → Run → Type 0
EndsBefore e pending p run =
    (run.outcome ≡ escaped e) × (run.sent ≡ []) × (run.power ≡ p) × (run.retry_task ≡ pending)

finish-retry :
    (v : Bool) (cmd : Sent) (before : Bool) (r : Result (Unit {0})) (p : Power)
    → (finish v cmd before before r p).retry_task ≡ before
unfolding finish
finish-retry v cmd before (ok x) p = refl
finish-retry v cmd before (raise e) p = refl

after_send-retry :
    (v : Bool) (cmd : Sent) (before : Bool) (r : Result (Unit {0})) (c : Calls) (p : Power)
    → (after_send v cmd before before r c p).retry_task ≡ before
unfolding after_send
after_send-retry v cmd before (raise e) c p = refl
after_send-retry v cmd before (ok x) c p = finish-retry v cmd before _ p

quiet :
    (run : Run) (p : Power)
    → Carries false power_off false false p run
    → run.outcome ≡ done
    → (state : String) (later : Calls) → (retry_power_on state later run.power).sent ≡ []
unfolding retry_power_on commanded
quiet run p (inl h) is state later = rw h.2 refl
quiet run p (inr h) is state later = absurd (h.0 is)

-- A turn-off cancels the retry. If it is done, the switch assumes that the machine is off, and a retry
-- that runs after all sends nothing, whatever the machine's state is then.
pub turn_off_lem :
    (c : Calls) (p : Power)
    → Carries false power_off false false p (turn_off c p)
      × ((turn_off c p).retry_task ≡ false)
      × ((turn_off c p).outcome ≡ done
          → (state : String) (later : Calls)
          → (retry_power_on state later (turn_off c p).power).sent ≡ [])
unfolding turn_off
turn_off_lem c p =
    let carries = after_send-Carries false power_off false false (send c.lan c.cloud) c p in
    (carries, after_send-retry false power_off false _ c p, quiet _ p carries)
