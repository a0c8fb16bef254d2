-- ===== src/Services.antt =====
-- The service that takes the counters from the machine's screen: `handle_set_baseline_from_screen` of
-- custom_components/delonghi_coffee/__init__.py.
pub mod Fields
pub mod Collect
pub mod Laws
mod Examples
use delonghi_ha.Prelude.{
  ℕ, List, [], ◌∷◌, Bool, true, false, String, str_eq, Option, none, some, if◌then◌else◌,
}
use delonghi_ha.Prelude.Int.{ℤ}
use delonghi_ha.Prelude.Dict.{Dict, lookup, insert}
use delonghi_ha.Baseline.{Store, async_load, async_set_many, async_clear}

-- `_SCREEN_FIELD_TO_COUNTER`: the counter of a field, and the factor to its unit.
abbrev pub screen_fields : Dict (String × ℕ)
screen_fields =
    ("total_beverages", ("total_beverages", 1))
    ∷ ("total_espressos", ("total_espressos", 1))
    ∷ ("espresso", ("espresso", 1))
    ∷ ("coffee", ("coffee", 1))
    ∷ ("long_coffee", ("long_coffee", 1))
    ∷ ("doppio", ("doppio", 1))
    ∷ ("americano", ("americano", 1))
    ∷ ("cappuccino", ("cappuccino", 1))
    ∷ ("tea", ("tea", 1))
    ∷ ("hot_water", ("hot_water", 1))
    ∷ ("descale_count", ("descale_count", 1))
    ∷ ("filter_replacements", ("filter_replacements", 1))
    ∷ ("beverages_since_descale", ("beverages_since_descale", 1))
    ∷ ("grounds_count", ("grounds_count", 1))
    ∷ ("total_water_liters", ("total_water_ml", 1000))
    ∷ []

-- Done, a HomeAssistantError (a value that is no number, or no field), or an OverflowError that no
-- handler takes.
pub data ScreenReply : Type 0 where
  done : ScreenReply
  invalid_value : ScreenReply
  no_fields : ScreenReply
  escaped_overflow : ScreenReply

-- What `int(float(raw) * mult)` gives: a number, a TypeError or ValueError, or an OverflowError.
pub data Converted : Type 0 where
  converted : ℤ → Converted
  no_number : Converted
  overflow : Converted

-- The updates, or the field's exception.
pub data Collected : Type 0 where
  updates_of : Dict ℤ → Collected
  refused_at : String → Collected
  overflow_at : String → Collected

-- `convert raw mult` is `int(float(raw) * mult)`.
module _ {R : Type 0} (convert : R → ℕ → Converted) where
  -- The loop: the updates, or the first exception.
  abbrev pub put : String → String → Converted → Dict ℤ → Collected
  put field key (converted n) updates = updates_of (insert key n updates)
  put field key no_number updates = refused_at field
  put field key overflow updates = overflow_at field

  unfoldable pub field_update : String → R → Dict ℤ → Option (String × ℕ) → Collected
  field_update field raw updates none = updates_of updates
  field_update field raw updates (some (key, mult)) =
      if str_eq field "config_entry_id"
      then updates_of updates
      else put field key (convert raw mult) updates

  abbrev pub and_next : (Dict ℤ → Collected) → Collected → Collected
  and_next next (refused_at field) = refused_at field
  and_next next (overflow_at field) = overflow_at field
  and_next next (updates_of updates) = next updates

  unfoldable pub collect : Dict R → Dict ℤ → Collected
  collect [] updates = updates_of updates
  collect ((field, raw) ∷ given) updates =
      and_next (collect given) (field_update field raw updates (lookup field screen_fields))

  unfoldable pub accepted_all : Dict ℤ → Dict (Option ℤ)
  accepted_all [] = []
  accepted_all ((key, n) ∷ updates) = (key, some n) ∷ accepted_all updates

  abbrev pub apply_updates : Collected → Store → ScreenReply × Store
  apply_updates (refused_at field) s = (invalid_value, s)
  apply_updates (overflow_at field) s = (escaped_overflow, s)
  apply_updates (updates_of []) s = (no_fields, s)
  apply_updates (updates_of (entry ∷ updates)) s =
      (done, async_set_many (accepted_all (entry ∷ updates)) s)

  unfoldable pub handle_set_baseline_from_screen : Dict R → Store → ScreenReply × Store
  handle_set_baseline_from_screen given s = apply_updates (collect given []) (async_load s)

unfoldable pub handle_reset_local_baseline : Store → Store
handle_reset_local_baseline s = async_clear s
