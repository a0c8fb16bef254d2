-- ===== src/Coordinator/Assess/Laws.antt =====
-- When the coordinator departs from what the machine reports.
use delonghi_ha.Prelude.{
  ℕ, List, [], ◌∷◌, Bool, true, false, ◌&&◌, ◌||◌, String, str_eq, eq_iff, Option, none,
  if◌then◌else◌, ◌≡◌, refl, sym, ap, ◌∙◌, ◌⊎◌, inl, inr, if_rule, Bool-cases,
}
use mathlib.Core.Path.{subst}
use delonghi_ha.Ecam.Monitor.{
  MachineState, off, unknown, other, turning_on, idle, brewing, error, descaling, heating, ready,
  rinsing, going_to_sleep, preparing_milk, dispensing_hot_water, cleaning_milk_system,
  rinsing_water_filter, preparing_chocolate, preparing_milk_alt, Alarm,
}
use delonghi_ha.Coordinator.Assess.{
  CloudStatus, MonitorTracker, is_timed_out, UpdateData, may_be_off, assumed_state, is_suppressed,
  data_of,
}
use delonghi_ha.Coordinator.Assess.History.{
  both, Reading, track_all, Ordered, Unchanged, track_all-raw, track_all-Unchanged,
}

-- The state and the alarms of the data against those of the status; `Old` is the evidence that the
-- payload is old.
abbrev pub StateReported : Type 0 → CloudStatus → MachineState → Type 0
StateReported Old st state =
    (state ≡ st.monitor.machine_state) ⊎ ((state ≡ off) × (st.status ≡ "RUN") × Old)

abbrev pub AlarmsReported : Type 0 → CloudStatus → List Alarm → Option ℕ → Type 0
AlarmsReported Old st alarms word =
    ((alarms ≡ st.monitor.alarms) × (word ≡ st.monitor.alarm_word))
    ⊎ ((alarms ≡ []) × (word ≡ none) × (Old ⊎ (st.status ≡ "UNKNOWN")))

assumed_state-Reported :
    (Old : Type 0) (timed_out : Bool) (st : CloudStatus)
    → (timed_out ≡ true → Old)
    → StateReported Old st (assumed_state timed_out st)
unfolding assumed_state
assumed_state-Reported Old timed_out st old =
    if_rule (StateReported Old st) _
      (λ e. inr (refl, (eq_iff st.status "RUN").0 (both (both e).1).0, old (both e).0))
      (λ e. inl refl)

either : {x y : Bool} → (x || y) ≡ true → (x ≡ true) ⊎ (y ≡ true)
either {x = true} {y = y} e = inl refl
either {x = false} {y = y} e = inr e

reason :
    (Old : Type 0) (timed_out : Bool) (status : String)
    → (timed_out ≡ true → Old)
    → (timed_out ≡ true) ⊎ (str_eq status "UNKNOWN" ≡ true)
    → Old ⊎ (status ≡ "UNKNOWN")
reason Old timed_out status old (inl e) = inl (old e)
reason Old timed_out status old (inr e) = inr ((eq_iff status "UNKNOWN").0 e)

data_of-Alarms :
    (Old : Type 0) (timed_out : Bool) (st : CloudStatus)
    → (timed_out ≡ true → Old)
    → AlarmsReported Old st (data_of timed_out st).alarms (data_of timed_out st).alarm_word
unfolding data_of
data_of-Alarms Old timed_out st old = elim (Bool-cases (is_suppressed timed_out st)) [
  | inl e ↦ inr (
    ap (λ b. if b then [] else st.monitor.alarms) e,
    ap (λ b. if b then none else st.monitor.alarm_word) e,
    reason Old timed_out st.status old (either (unfold is_suppressed in (both e).0)),
  )
  | inr e ↦ inl (
    ap (λ b. if b then [] else st.monitor.alarms) e,
    ap (λ b. if b then none else st.monitor.alarm_word) e,
  )
]

silent_states : (m : MachineState) → may_be_off m ≡ false → (m ≡ off) ⊎ (m ≡ unknown)
unfolding may_be_off
silent_states off h = inl refl
silent_states unknown h = inr refl
silent_states turning_on h = cc
silent_states idle h = cc
silent_states brewing h = cc
silent_states error h = cc
silent_states descaling h = cc
silent_states heating h = cc
silent_states ready h = cc
silent_states rinsing h = cc
silent_states going_to_sleep h = cc
silent_states preparing_milk h = cc
silent_states dispensing_hot_water h = cc
silent_states cleaning_milk_system h = cc
silent_states rinsing_water_filter h = cc
silent_states preparing_chocolate h = cc
silent_states preparing_milk_alt h = cc
silent_states (other n) h = cc

-- A monitor that is silent under RUN is off, or was never known.
silent_off :
    (st : CloudStatus)
    → st.status ≡ "RUN"
    → (assumed_state true st ≡ off) ⊎ (assumed_state true st ≡ unknown)
silent_off st run =
    elim (Bool-cases (str_eq st.status "RUN" && may_be_off st.monitor.machine_state)) [
      | inl e ↦
          inl (unfold assumed_state in ap (λ b. if b then off else st.monitor.machine_state) e)
      | inr e ↦ rest e (
          silent_states st.monitor.machine_state (
            ap (λ b. b && may_be_off st.monitor.machine_state)
              (sym ((eq_iff st.status "RUN").1 run))
            ∙ e))
    ]
  where
    same :
        (str_eq st.status "RUN" && may_be_off st.monitor.machine_state) ≡ false
        → assumed_state true st ≡ st.monitor.machine_state
    same e = unfold assumed_state in ap (λ b. if b then off else st.monitor.machine_state) e

    rest :
        (str_eq st.status "RUN" && may_be_off st.monitor.machine_state) ≡ false
        → (st.monitor.machine_state ≡ off) ⊎ (st.monitor.machine_state ≡ unknown)
        → (assumed_state true st ≡ off) ⊎ (assumed_state true st ≡ unknown)
    rest e (inl h) = inl (same e ∙ h)
    rest e (inr h) = inr (same e ∙ h)

silent_run :
    (timed_out : Bool) (st : CloudStatus)
    → (data_of timed_out st).monitor_stale ≡ true
    → st.status ≡ "RUN"
    → ((data_of timed_out st).machine_state ≡ off)
      ⊎ ((data_of timed_out st).machine_state ≡ unknown)
unfolding data_of
silent_run true st e run = silent_off st run
silent_run false st e run = cc

-- What the data say after a run of readings.
pub record Reports (now : ℕ) (rs : List Reading) (st : CloudStatus) (d : UpdateData) : Type 0 where
  pub state : StateReported (Unchanged now st.monitor_raw rs) st d.machine_state
  pub alarms : AlarmsReported (Unchanged now st.monitor_raw rs) st d.alarms d.alarm_word
  pub silent :
      d.monitor_stale ≡ true
      → st.status ≡ "RUN"
      → (d.machine_state ≡ off) ⊎ (d.machine_state ≡ unknown)

-- The data report the machine's own state, or Off if the cloud says RUN and every payload of the last
-- 45 minutes is this one; data that are marked stale while the cloud says RUN report Off or Unknown. They
-- report the machine's alarms, or none if the payload is that old or the cloud gives no status. The clock
-- must not go back.
pub data_of-Reports :
    (older : List Reading) (t : MonitorTracker) (now clock : ℕ) (st : CloudStatus)
    → Ordered (record { raw = st.monitor_raw; clock = clock } ∷ older)
    → Reports now (record { raw = st.monitor_raw; clock = clock } ∷ older) st (
        data_of
          (is_timed_out now (track_all (record { raw = st.monitor_raw; clock = clock } ∷ older) t))
          st)
data_of-Reports older t now clock st ordered = record {
  state = unfold data_of in assumed_state-Reported _ _ st old;
  alarms = data_of-Alarms _ _ st old;
  silent = silent_run _ st;
}
  where
    rs : List Reading
    rs = record { raw = st.monitor_raw; clock = clock } ∷ older

    old : is_timed_out now (track_all rs t) ≡ true → Unchanged now st.monitor_raw rs
    old e =
        subst (λ raw. Unchanged now raw rs)
          (track_all-raw (record { raw = st.monitor_raw; clock = clock }) older t)
          (track_all-Unchanged rs t now ordered e)
