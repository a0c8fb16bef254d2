-- ===== src/Counters/Examples.antt =====
-- Counters of a machine that splits the total by kind.
use delonghi_ha.Prelude.{◌≡◌, refl, [], ◌∷◌, true, false, String, Option, none, some}
use delonghi_ha.Prelude.Int.{ℤ, pos, negsuc}
use delonghi_ha.Prelude.Dict.{Dict, lookup, insert}
use delonghi_ha.Counters.{CounterValue, number, flag, text, infinite, as_int}
use delonghi_ha.Counters.Parse.{
  Counters, Loaded, malformed, int_of, insert_read, insert_value, and_then, truncate, set_value,
  set_int, simple_counters, json_text, json_counters, other_fallback, descale, bean_uses, sum_parts,
  is_truthy, other_count, computed_total, set_default, gathered, parse_counters,
}

-- No text is a number, and none is JSON.
abbrev no_number : String → Option ℤ
no_number s = none

abbrev no_json : String → Loaded
no_json s = malformed

abbrev first_number : ℤ → ℤ → Option ℤ
first_number a b = some a

abbrev soul : Dict CounterValue
soul =
    ("d700_tot_bev_b", number (pos 52))
    ∷ ("d701_tot_bev_bw", number (pos 15))
    ∷ ("d703_tot_bev_w", text "many")
    ∷ ("d702_tot_bev_other", number (pos 4))
    ∷ ("d719_id22_tea", flag true)
    ∷ []

abbrev total_shown : Option Counters → Option CounterValue
total_shown none = none
total_shown (some counters) = lookup "total_beverages" counters

total_of_kinds :
    total_shown (parse_counters no_number no_json first_number soul) ≡ some (number (pos 71))
unfolding lookup insert int_of insert_read insert_value and_then set_value set_int simple_counters
    json_text json_counters other_fallback descale bean_uses as_int sum_parts is_truthy other_count
    computed_total set_default gathered parse_counters
total_of_kinds = refl

-- Infinity is an OverflowError of `int`.
infinite_tea :
    parse_counters no_number no_json first_number (("d719_id22_tea", infinite false) ∷ []) ≡ none
unfolding lookup int_of insert_read insert_value and_then set_value simple_counters gathered
    parse_counters
infinite_tea = refl

-- A half is rounded to zero, also below it.
half_cups : (truncate (pos 7) 1 ≡ pos 3) × (truncate (negsuc 0) 1 ≡ pos 0)
unfolding truncate
half_cups = (refl, refl)
