-- ===== src/Select/Examples.antt =====
-- Runs of the select entity.
use delonghi_ha.Prelude.{◌≡◌, refl, ℕ, [], ◌∷◌, true, none, some, String, ◌==◌, if◌then◌else◌}
use delonghi_ha.Prelude.Raise.{ok}
use delonghi_ha.Counters.{number}
use delonghi_ha.Prelude.Int.{pos}
use delonghi_ha.Coordinator.Update.{seed_profile}
use delonghi_ha.Select.{
  Profiles, profile_name, current_option, by_name, by_number, find_profile, async_select_option,
}
use delonghi_ha.Select.Laws.{seeded, current_option-seeded, Selected, async_select_option-Selected}

abbrev numbered : ℕ → String
numbered n = if n == 1 then "Profile 1" else if n == 2 then "Profile 2" else "Profile"

abbrev two_profiles : Profiles
two_profiles = (1, some "Anna") ∷ (2, none) ∷ []

first_seed : seed_profile 1 none ≡ some 1
unfolding seed_profile
first_seed = refl

-- The machine is switched to the second profile later; the first is shown.
current_option-seeded_example :
    current_option numbered two_profiles
      (seeded (1 ∷ 2 ∷ []) none)
      (number (pos 2))
      (number (pos 2))
    ≡ some (profile_name numbered two_profiles 1)
current_option-seeded_example =
    current_option-seeded numbered two_profiles none 1 1 (2 ∷ []) (number (pos 2)) (number (pos 2))
      first_seed

async_select_option-Selected_example :
    Selected numbered
      (λ frame. ok true)
      two_profiles
      "Profile 2"
      (some 1)
      (async_select_option numbered (λ frame. ok true) two_profiles "Profile 2" (some 1))
async_select_option-Selected_example =
    async_select_option-Selected numbered (λ frame. ok true) two_profiles "Profile 2" (some 1)

found_by_number : find_profile numbered two_profiles "Profile 2" ≡ some 2
unfolding find_profile by_name by_number
found_by_number = refl
