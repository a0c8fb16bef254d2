-- ===== src/Services/Examples.antt =====
-- The service with values in whole units.
use delonghi_ha.Prelude.{◌≡◌, refl, ℕ, ◌*◌, [], ◌∷◌, Bool, false, Option, none, some}
use delonghi_ha.Prelude.Int.{ℤ, pos, leb_int}
use delonghi_ha.Prelude.Dict.{Dict, lookup, insert}
use delonghi_ha.Baseline.{
  Store, from_file, async_load, accepted_values, update_values, save_if, async_set_many,
}
use delonghi_ha.Services.{
  invalid_value, Converted, converted, no_number, field_update, collect, accepted_all,
  handle_set_baseline_from_screen,
}

abbrev whole : Option ℕ → ℕ → Converted
whole none mult = no_number
whole (some n) mult = converted (pos (n * mult))

abbrev enough : ℤ → ℤ → Option Bool
enough cloud baseline = some (leb_int baseline cloud)

abbrev empty_store : Store
empty_store = record { values = []; is_loaded = false; saved = none }

abbrev screen_values : Dict (Option ℕ)
screen_values = ("tea", some 7) ∷ ("total_water_liters", some 3) ∷ ("config_entry_id", none) ∷ []

stored_values :
    (handle_set_baseline_from_screen whole screen_values empty_store).1.values
    ≡ ("tea", pos 7) ∷ ("total_water_ml", pos 3000) ∷ []
unfolding lookup insert from_file async_load accepted_values update_values save_if async_set_many
    field_update collect accepted_all handle_set_baseline_from_screen
stored_values = refl

refused : (handle_set_baseline_from_screen whole (("tea", none) ∷ []) empty_store).0 ≡ invalid_value
unfolding lookup from_file async_load field_update collect handle_set_baseline_from_screen
refused = refl
