-- ===== src/Select/Laws.antt =====
-- What the select entity shows (select.py), with the profile that the coordinator takes from the monitor.
use delonghi_ha.Prelude.{
  ◌≡◌, ◌≢◌, sym, arith, str_eq, eq_iff, if_rule, refl, ap, ◌∙◌, ℕ, zero, suc, List, [], ◌∷◌, Bool,
  true, false, String, Option, none, some,
}
use mathlib.Core.Path.{subst}
use delonghi_ha.Prelude.First.{First, at_head, further, Never}
use delonghi_ha.Prelude.Int.{pos}
use delonghi_ha.Prelude.Raise.{Result, ok, raise, Exception, ◌>>=◌}
use delonghi_ha.Counters.{CounterValue}
use delonghi_ha.Coordinator.Update.{seed_profile}
use delonghi_ha.Ecam.Command.{profile_command}
use delonghi_ha.Select.{
  Profiles, profile_name, current_option, by_name, by_number, or_by_number, find_profile,
  settle_selection, select_found, async_select_option,
}

-- `selected_profile` after updates that read these profiles from the monitor.
abbrev pub seeded : List ℕ → Option ℕ → Option ℕ
seeded [] selected = selected
seeded (p ∷ later) selected = seeded later (seed_profile p selected)

seeded-some : (later : List ℕ) (p : ℕ) → seeded later (some p) ≡ some p
unfolding seed_profile
seeded-some [] p = refl
seeded-some (zero ∷ later) p = seeded-some later p
seeded-some (suc n ∷ later) p = seeded-some later p

current_option-kept :
    (numbered : ℕ → String) (profiles : Profiles) (p : ℕ) (later : List ℕ)
    (cloud monitor : CounterValue)
    → current_option numbered profiles (seeded later (some p)) cloud monitor
      ≡ some (profile_name numbered profiles p)
unfolding current_option
current_option-kept numbered profiles p later cloud monitor =
    ap (λ (s : Option ℕ). current_option numbered profiles s cloud monitor) (seeded-some later p)

-- Once the monitor has given a profile that is not 0, or one was selected, the entity shows the
-- name of that profile, whatever later updates, the cloud and the monitor say.
pub current_option-seeded :
    (numbered : ℕ → String) (profiles : Profiles) (selected : Option ℕ) (first p : ℕ)
    (later : List ℕ) (cloud monitor : CounterValue)
    → seed_profile first selected ≡ some p
    → current_option numbered profiles (seeded (first ∷ later) selected) cloud monitor
      ≡ some (profile_name numbered profiles p)
current_option-seeded numbered profiles selected first p later cloud monitor h =
    ap (λ (s : Option ℕ). current_option numbered profiles (seeded later s) cloud monitor) h
    ∙ current_option-kept numbered profiles p later cloud monitor

-- An entry of the profiles with the name, and a number with the name that `numbered` gives it.
abbrev pub HasName : String → ℕ × Option String → Type 0
HasName option entry = entry.1 ≡ some option

abbrev pub IsNumbered : (ℕ → String) → String → ℕ → Type 0
IsNumbered numbered option i = option ≡ numbered i

-- The profile that an option names: the first with this name, or else the first of the four numbers whose
-- name it is.
pub data Names (numbered : ℕ → String) (profiles : Profiles) (option : String)
    : Option ℕ → Type 0 where
  named :
      (pid : ℕ)
      → First (HasName option) (pid, some option) profiles
      → Names numbered profiles option (some pid)
  by_its_number :
      (pid : ℕ)
      → Never (HasName option) profiles
      → First (IsNumbered numbered option) pid (1 ∷ 2 ∷ 3 ∷ 4 ∷ [])
      → Names numbered profiles option (some pid)
  nobody :
      Never (HasName option) profiles
      → Never (IsNumbered numbered option) (1 ∷ 2 ∷ 3 ∷ 4 ∷ [])
      → Names numbered profiles option none

module _ (numbered : ℕ → String) (option : String) where
  -- What the two searches give.
  abbrev Named : Profiles → Option ℕ → Type 0
  Named profiles none = Never (HasName option) profiles
  Named profiles (some pid) = First (HasName option) (pid, some option) profiles

  Named-later :
      (entry : ℕ × Option String) (profiles : Profiles) (found : Option ℕ)
      → ¬ HasName option entry
      → Named profiles found
      → Named (entry ∷ profiles) found
  Named-later entry profiles none other h = (other, h)
  Named-later entry profiles (some pid) other h = further other h

  no_name : (p : ℕ) → ¬ HasName option (p, none)
  no_name p h = cc

  other_name :
      (p : ℕ) (name : String) → str_eq name option ≡ false → ¬ HasName option (p, some name)
  other_name p name e h = ground (arith, (eq_iff name option).1 (cc h), e)

  by_name-Named : (profiles : Profiles) → Named profiles (by_name numbered profiles option)
  unfolding by_name
  by_name-Named [] = tt
  by_name-Named ((p, none) ∷ profiles) =
      Named-later (p, none) profiles _ (no_name p) (by_name-Named profiles)
  by_name-Named ((p, some name) ∷ profiles) =
      let rest = by_name-Named profiles in
      if_rule (Named ((p, some name) ∷ profiles)) (str_eq name option)
        (λ e.
          subst (λ (n : String). First (HasName option) (p, some option) ((p, some n) ∷ profiles))
            (sym ((eq_iff name option).0 e)) (at_head refl))
        (λ e. Named-later (p, some name) profiles _ (other_name p name e) rest)

  abbrev Counted : List ℕ → Option ℕ → Type 0
  Counted numbers none = Never (IsNumbered numbered option) numbers
  Counted numbers (some pid) = First (IsNumbered numbered option) pid numbers

  Counted-later :
      (i : ℕ) (numbers : List ℕ) (found : Option ℕ)
      → option ≢ numbered i
      → Counted numbers found
      → Counted (i ∷ numbers) found
  Counted-later i numbers none other h = (other, h)
  Counted-later i numbers (some pid) other h = further other h

  other_number : (i : ℕ) → str_eq option (numbered i) ≡ false → option ≢ numbered i
  other_number i e h = ground (arith, (eq_iff option (numbered i)).1 h, e)

  by_number-Counted : (numbers : List ℕ) → Counted numbers (by_number numbered numbers option)
  unfolding by_number
  by_number-Counted [] = tt
  by_number-Counted (i ∷ numbers) =
      let rest = by_number-Counted numbers in
      if_rule (Counted (i ∷ numbers)) (str_eq option (numbered i))
        (λ e. at_head ((eq_iff option (numbered i)).0 e))
        (λ e. Counted-later i numbers _ (other_number i e) rest)

  from_number :
      (profiles : Profiles) (found : Option ℕ)
      → Never (HasName option) profiles
      → Counted (1 ∷ 2 ∷ 3 ∷ 4 ∷ []) found
      → Names numbered profiles option found
  from_number profiles none never h = nobody never h
  from_number profiles (some pid) never h = by_its_number pid never h

  from_name :
      (profiles : Profiles) (found : Option ℕ)
      → Named profiles found
      → Names numbered profiles option (or_by_number numbered found option)
  from_name profiles (some pid) h = named pid h
  from_name profiles none h = from_number profiles _ h (by_number-Counted (1 ∷ 2 ∷ 3 ∷ 4 ∷ []))

  find_profile-Names :
      (profiles : Profiles) → Names numbered profiles option (find_profile numbered profiles option)
  unfolding find_profile
  find_profile-Names profiles = from_name profiles _ (by_name-Named profiles)

-- The ways in which a selection ends.
pub data Selected (numbered : ℕ → String) (sent : List ℕ → Result Bool) (profiles : Profiles)
    (option : String) (before : Option ℕ) : Result (Unit {0}) × Option ℕ → Type 0 where
  unknown_option :
      Names numbered profiles option none
      → Selected numbered sent profiles option before (ok tt, before)
  refused :
      (pid : ℕ) (frame : List ℕ)
      → Names numbered profiles option (some pid)
      → profile_command (pos pid) ≡ ok frame
      → sent frame ≡ ok false
      → Selected numbered sent profiles option before (ok tt, before)
  failed :
      (pid : ℕ) (e : Exception)
      → Names numbered profiles option (some pid)
      → (profile_command (pos pid) >>= sent) ≡ raise e
      → Selected numbered sent profiles option before (raise e, before)
  accepted :
      (pid : ℕ) (frame : List ℕ)
      → Names numbered profiles option (some pid)
      → profile_command (pos pid) ≡ ok frame
      → sent frame ≡ ok true
      → Selected numbered sent profiles option before (ok tt, some pid)

module _ (numbered : ℕ → String) (sent : List ℕ → Result Bool) (profiles : Profiles)
    (option : String) (before : Option ℕ) where
  abbrev Ends : Result (Unit {0}) × Option ℕ → Type 0
  Ends result = Selected numbered sent profiles option before result

  module _ (pid : ℕ) (found : Names numbered profiles option (some pid)) where
    answered :
        (frame : List ℕ) (answer : Result Bool)
        → profile_command (pos pid) ≡ ok frame
        → sent frame ≡ answer
        → Ends (settle_selection numbered pid before answer)
    answered frame (ok true) c e = accepted pid frame found c e
    answered frame (ok false) c e = refused pid frame found c e
    answered frame (raise x) c e = failed pid x found (ap (λ r. r >>= sent) c ∙ e)

    commanded :
        (command : Result (List ℕ))
        → profile_command (pos pid) ≡ command
        → Ends (settle_selection numbered pid before (command >>= sent))
    commanded (ok frame) c = answered frame (sent frame) c refl
    commanded (raise x) c = failed pid x found (ap (λ r. r >>= sent) c)

  searched :
      (found : Option ℕ)
      → Names numbered profiles option found
      → Ends (select_found numbered sent found before)
  searched none e = unknown_option e
  searched (some pid) e = commanded pid e (profile_command (pos pid)) refl

-- A selection changes the profile only if the machine takes the frame that selects it: the first
-- profile with the name that was chosen, or, if no profile has it, the first of the numbers 1 to 4 whose
-- name "Profile N" it is. If it is the name of neither, if the machine refuses, or if an exception is
-- raised, the profile stays.
pub async_select_option-Selected :
    (numbered : ℕ → String) (sent : List ℕ → Result Bool) (profiles : Profiles) (option : String)
    (before : Option ℕ)
    → Selected numbered sent profiles option before
        (async_select_option numbered sent profiles option before)
unfolding async_select_option
async_select_option-Selected numbered sent profiles option before =
    searched numbered sent profiles option before (find_profile numbered profiles option)
      (find_profile-Names numbered option profiles)
