-- ===== src/Switch/Reconcile/Laws.antt =====
-- How long a monitor that contradicts a command is believed, and that reading changes nothing.
use delonghi_ha.Prelude.{
  ℕ, zero, suc, ◌+◌, Bool, false, not, ==_refl, leb, String, str_eq, eq_iff, none, some, ◌≡◌, arith,
  if◌then◌else◌,
}
use mathlib.Core.Path.{subst}
use text.Mathlib.TextPositions.{eq_refl}
use delonghi_ha.Switch.Reconcile.{
  stale_threshold, Data, Power, says_on, compare_commanded, follow, settle, reconcile, is_on,
}

-- What an unconfirmed command assumes is what was commanded.
abbrev pub IsSound : Power → Type 0
IsSound p = (v : Bool) → p.last_commanded_on ≡ some v → p.assumed_on ≡ v

-- The same report, `n` times, each as a new object.
abbrev pub reports : ℕ → ℕ → String → Power → Power
reports zero first state p = p
reports (suc n) first state p =
    reports n (first + 1) state (reconcile (record { object = first; machine_state = state }) p)

-- One update. An unknown state shows what is assumed. A state that agrees with the command confirms
-- it: nothing is pending any more. With no command pending, the report is taken over. And a
-- command that is pending stays sound.
pub reconcile_lem :
    (d : Data) (p : Power)
    → IsSound p
    → IsSound (reconcile d p)
      × ((reconcile d p).processed_data ≡ some d.object)
      × (d.machine_state ≡ "Unknown" → (reconcile d p).cached_is_on ≡ p.assumed_on)
      × (str_eq d.machine_state "Unknown" ≡ false
          → p.last_commanded_on ≡ none
          → ((reconcile d p).cached_is_on ≡ says_on d.machine_state)
            × ((reconcile d p).assumed_on ≡ says_on d.machine_state))
      × (str_eq d.machine_state "Unknown" ≡ false
          → p.last_commanded_on ≡ some (says_on d.machine_state)
          → ((reconcile d p).cached_is_on ≡ says_on d.machine_state)
            × ((reconcile d p).last_commanded_on ≡ none))
unfolding reconcile settle follow compare_commanded
reconcile_lem d p sound = (
  λ v h. ground (arith, sound v),
  ground arith,
  λ h. ground (arith, eq_iff d.machine_state "Unknown"),
  λ h k. (ground arith, ground arith),
  λ h k. (ground arith, ground arith),
)

-- A command to `v` that `k` reports of the same state contradict.
record Contradicted (v : Bool) (state : String) (k : ℕ) (p : Power) : Type 0 where
  pending : p.last_commanded_on ≡ some v
  assumed : p.assumed_on ≡ v
  counted : p.monitor_stale_count ≡ k
  last : p.last_monitor_state ≡ some state
  shown : p.cached_is_on ≡ (if leb stale_threshold k then v else not v)

module _ (v : Bool) (state : String) (known : str_eq state "Unknown" ≡ false)
    (contradicts : says_on state ≡ not v) where
  first_report :
      (object : ℕ) (p : Power)
      → p.last_commanded_on ≡ some v
      → p.assumed_on ≡ v
      → p.monitor_stale_count ≡ 0
      → Contradicted v state 1 (reconcile (record { object = object; machine_state = state }) p)
  unfolding reconcile settle follow compare_commanded
  first_report object p pending assumed counted = record {
    pending = ground arith;
    assumed = ground arith;
    counted = ground arith;
    last = ground arith;
    shown = ground arith;
  }

  next_report :
      (object k : ℕ) (p : Power)
      → Contradicted v state (k + 1) p
      → Contradicted v state
          (k + 2)
          (reconcile (record { object = object; machine_state = state }) p)
  unfolding reconcile settle follow compare_commanded
  next_report object k p h =
      let a = h.pending in
      let b = h.assumed in
      let c = h.counted in
      let d = h.last in
      let same = eq_refl state in
      record {
        pending = ground arith;
        assumed = ground arith;
        counted = ground arith;
        last = ground arith;
        shown = ground arith;
      }

  more_reports :
      (n first k : ℕ) (p : Power)
      → Contradicted v state (k + 1) p
      → Contradicted v state (k + n + 1) (reports n first state p)
  more_reports zero first k p h =
      subst (λ i. Contradicted v state i p) {x = k + 1} {y = k + 0 + 1} (omega arith) h
  more_reports (suc n) first k p h =
      let next = reconcile (record { object = first; machine_state = state }) p in
      subst (λ i. Contradicted v state i (reports n (first + 1) state next)) {x = k + 1 + n + 1}
        {y = k + suc n + 1} (omega arith)
        (more_reports n (first + 1) (k + 1) next (
          subst (λ i. Contradicted v state i next) {x = k + 2} {y = k + 1 + 1} (omega arith)
            (next_report first k p h)))

  -- After a command, a monitor that repeats one known state that contradicts it is shown for its
  -- first two reports; from the third on, the commanded state is shown, however often the same report
  -- comes, and the command stays pending.
  pub reconcile-stale :
      (n first : ℕ) (p : Power)
      → p.last_commanded_on ≡ some v
      → p.assumed_on ≡ v
      → p.monitor_stale_count ≡ 0
      → ((reports (suc n) first state p).cached_is_on ≡ (if leb 2 n then v else not v))
        × ((reports (suc n) first state p).last_commanded_on ≡ some v)
  reconcile-stale n first p pending assumed counted =
      let end : Contradicted v state (0 + n + 1) (reports (suc n) first state p) =
        more_reports n (first + 1) 0 _ (first_report first p pending assumed counted) in
      let shown = end.shown in (ground arith, end.pending)

reconcile-processed : (d : Data) (p : Power) → (reconcile d p).processed_data ≡ some d.object
unfolding reconcile settle follow compare_commanded
reconcile-processed d p = ground arith

-- Reading the switch twice against the same data gives the same answer, and the second time changes
-- nothing; and what a refresh has processed is read without any change.
pub is_on_twice :
    (d : Data) (p : Power)
    → (is_on d (is_on d p).1 ≡ is_on d p)
      × (is_on d (reconcile d p) ≡ (
        if str_eq d.machine_state "Unknown"
            then (reconcile d p).assumed_on
            else (reconcile d p).cached_is_on,
        reconcile d p,
      ))
unfolding is_on
is_on_twice d p =
    let seen = reconcile-processed d p in
    let self = ==_refl d.object in (ground arith, ground arith)
