-- ===== src/Counters/Parse.antt =====
-- `parse_counters` (custom_components/delonghi_coffee/api.py), step by step on the dictionary of counters.
-- A property without a value has the value None.
use delonghi_ha.Prelude.{
  ℕ, zero, suc, ◌/◌, ◌^◌, List, [], ◌∷◌, Bool, true, false, not, String, str_eq, Option, none, some,
  if◌then◌else◌,
}
use delonghi_ha.Prelude.Int.{ℤ, pos, negsuc, leb_int, add_int}
use delonghi_ha.Prelude.Dict.{Dict, lookup, insert}
use delonghi_ha.Counters.{
  CounterValue, number, flag, text, null, nested, real, infinite, nan, as_int, or_null,
}
use delonghi_ha.Brewing.Beverage.{joined}
use package.text.Mathlib.Text.{starts_with}

abbrev pub Counters : Type 0
Counters = Dict CounterValue

abbrev pub is_present : Option CounterValue → Bool
is_present none = false
is_present (some value) = true

abbrev pub has : String → Counters → Bool
has key counters = is_present (lookup key counters)

-- `counter_map`, `json_props` and `bean_map` with the keys that they write.
abbrev pub counter_map : List (String × String)
counter_map =
    ("d700_tot_bev_b", "total_black_beverages")
    ∷ ("d701_tot_bev_b", "total_beverages")
    ∷ ("d701_tot_bev_bw", "total_bw_beverages")
    ∷ ("d703_tot_bev_w", "total_water_beverages")
    ∷ ("d704_tot_bev_espressi", "total_espressos")
    ∷ ("d705_tot_id1_espr", "espresso")
    ∷ ("d706_tot_id2_coffee", "coffee")
    ∷ ("d707_tot_id3_long", "long_coffee")
    ∷ ("d708_tot_id5_doppio_p", "doppio")
    ∷ ("d709_id6_americano", "americano")
    ∷ ("d710_tot_id7_capp", "cappuccino")
    ∷ ("d711_id8_lattmacc", "latte_macchiato")
    ∷ ("d712_id9_cafflatt", "caffe_latte")
    ∷ ("d713_id10_flatwhite", "flat_white")
    ∷ ("d714_id11_esprmacc", "espresso_macchiato")
    ∷ ("d715_id12_hotmilk", "hot_milk")
    ∷ ("d716_id13_cappdoppio_p", "cappuccino_doppio")
    ∷ ("d717_id15_caprev", "cappuccino_mix")
    ∷ ("d718_id16_hotwater", "hot_water")
    ∷ ("d719_id22_tea", "tea")
    ∷ ("d720_tot_id23_coffee_pot", "coffee_pot")
    ∷ ("d727_id24_cortado", "cortado")
    ∷ ("d728_id25_long_black", "long_black")
    ∷ ("d729_id26_travel_mug", "travel_mug")
    ∷ ("d730_tot_id27_brew_over_ice", "brew_over_ice")
    ∷ ("d731_pregr_coff_cnt", "preground_brews")
    ∷ ("d741_tot_custom_b_bw", "usage_tot_custom_b_bw")
    ∷ ("d742_tot_bev_no_original", "beverages_modified")
    ∷ ("d747_bev_abort_cnt", "beverages_aborted")
    ∷ ("d748_bev_2x_cnt", "beverages_doubled")
    ∷ ("d551_cnt_coffee_fondi", "grounds_count")
    ∷ ("d552_cnt_calc_tot", "descale_count")
    ∷ ("d553_water_tot_qty", "total_water_ml")
    ∷ ("d510_ground_cnt_percentage", "grounds_percentage")
    ∷ ("d513_percentage_usage_fltr", "filter_percentage")
    ∷ ("d554_cnt_filter_tot", "filter_replacements")
    ∷ ("d555_water_filter_qty", "water_through_filter_ml")
    ∷ ("d557_milk_cln_cnt", "milk_clean_count")
    ∷ ("d558_bev_cnt_desc_on", "beverages_since_descale")
    ∷ []

abbrev pub json_props : List (String × String)
json_props =
    ("d702_tot_bev_other", "other")
    ∷ ("d733_tot_bev_counters", "mug")
    ∷ ("d734_tot_bev_usage", "usage")
    ∷ ("d735_iced_bev", "iced")
    ∷ ("d736_mug_bev", "mug_bev")
    ∷ ("d737_mug_iced_bev", "mug_iced")
    ∷ ("d738_cold_brew_bev", "cold_brew")
    ∷ ("d739_taste_bev", "taste")
    ∷ ("d740_water_qty_bev", "water_qty")
    ∷ []

abbrev pub bean_map : List (String × String)
bean_map =
    ("d721_id200_bs_1", "bean_system_1_uses")
    ∷ ("d722_id201_bs_2", "bean_system_2_uses")
    ∷ ("d723_id202_bs_3", "bean_system_3_uses")
    ∷ ("d724_id203_bs_4", "bean_system_4_uses")
    ∷ ("d725_id204_bs_5", "bean_system_5_uses")
    ∷ ("d726_id205_bs_6", "bean_system_6_uses")
    ∷ []

-- What `int(value)` gives: an integer, a ValueError or TypeError, or an OverflowError.
pub data IntRead : Type 0 where
  integer : ℤ → IntRead
  refused overflow : IntRead

-- What `json.loads` gives of a text that starts with a brace: JSONDecodeError, another ValueError (an
-- integer of too many digits), an exception of another kind, or the object.
pub data Loaded : Type 0 where
  malformed other_value_error escaped : Loaded
  object : Dict CounterValue → Loaded

-- `int()` of a float rounds to zero.
abbrev pub negative : ℕ → ℤ
negative zero = pos zero
negative (suc n) = negsuc n

unfoldable pub truncate : ℤ → ℕ → ℤ
truncate (pos m) k = pos (m / 2 ^ k)
truncate (negsuc m) k = negative (suc m / 2 ^ k)

abbrev pub text_int : Option ℤ → IntRead
text_int none = refused
text_int (some n) = integer n

-- `val and isinstance(val, str) and val.startswith("{")`, and the text.
abbrev pub braced : String → Option String
braced s = if starts_with s "{" then some s else none

unfoldable pub json_text : CounterValue → Option String
json_text (text s) = braced s
json_text (number n) = none
json_text (flag b) = none
json_text null = none
json_text (nested e) = none
json_text (real m k) = none
json_text (infinite negative) = none
json_text nan = none

-- `svc.get(key, default)`
abbrev pub with_default : ℤ → Option CounterValue → CounterValue
with_default n none = number n
with_default n (some value) = value

-- The next step on the counters, unless an exception has left `parse_counters`.
unfoldable pub and_then : Option Counters → (Counters → Option Counters) → Option Counters
and_then none next = none
and_then (some counters) next = next counters

-- `to_int` is `int()` of a text, none where it raises ValueError; `loads` is `json.loads`; `percent a b` is
-- `round(a / b * 100)`, none where it raises OverflowError. Counters that are none stand for an exception
-- that leaves `parse_counters`.
module _ (to_int : String → Option ℤ) (loads : String → Loaded) (percent : ℤ → ℤ → Option ℤ) where
  -- `int(value)`
  unfoldable pub int_of : CounterValue → IntRead
  int_of (number n) = integer n
  int_of (flag true) = integer (pos 1)
  int_of (flag false) = integer (pos 0)
  int_of (text s) = text_int (to_int s)
  int_of null = refused
  int_of (nested e) = refused
  int_of (real m k) = integer (truncate m k)
  int_of (infinite negative) = overflow
  int_of nan = refused

  -- `counters[key] = int(value)`, or the value as it is.
  unfoldable pub insert_read : String → CounterValue → IntRead → Counters → Option Counters
  insert_read key value (integer n) counters = some (insert key (number n) counters)
  insert_read key value refused counters = some (insert key value counters)
  insert_read key value overflow counters = none

  unfoldable pub insert_value : String → CounterValue → Counters → Option Counters
  insert_value key value counters = insert_read key value (int_of value) counters

  -- A property's value that is not None, as an integer or as it is; and only as an integer.
  unfoldable pub set_value : String → Option CounterValue → Counters → Option Counters
  set_value key none counters = some counters
  set_value key (some null) counters = some counters
  set_value key (some (number n)) counters = insert_value key (number n) counters
  set_value key (some (flag b)) counters = insert_value key (flag b) counters
  set_value key (some (text s)) counters = insert_value key (text s) counters
  set_value key (some (nested e)) counters = insert_value key (nested e) counters
  set_value key (some (real m k)) counters = insert_value key (real m k) counters
  set_value key (some (infinite below)) counters = insert_value key (infinite below) counters
  set_value key (some nan) counters = insert_value key nan counters

  abbrev pub insert_int : String → IntRead → Counters → Option Counters
  insert_int key (integer n) counters = some (insert key (number n) counters)
  insert_int key refused counters = some counters
  insert_int key overflow counters = none

  unfoldable pub set_int : String → Option CounterValue → Counters → Option Counters
  set_int key value counters = insert_int key (int_of (or_null value)) counters

  unfoldable pub simple_counters :
      List (String × String) → Dict CounterValue → Counters → Option Counters
  simple_counters [] props counters = some counters
  simple_counters ((prop, friendly) ∷ rest) props counters =
      and_then (set_value friendly (lookup prop props) counters) (λ c. simple_counters rest props c)

  unfoldable pub add_entries : String → Dict CounterValue → Counters → Option Counters
  add_entries prefix [] counters = some counters
  add_entries prefix ((key, value) ∷ entries) counters =
      and_then (insert_value (joined prefix (joined "_" key)) value counters)
        (λ c. add_entries prefix entries c)

  abbrev pub add_object : String → Loaded → Counters → Option Counters
  add_object prefix malformed counters = some counters
  add_object prefix other_value_error counters = none
  add_object prefix escaped counters = none
  add_object prefix (object entries) counters = add_entries prefix entries counters

  abbrev pub add_json : String → Option String → Counters → Option Counters
  add_json prefix none counters = some counters
  add_json prefix (some s) counters = add_object prefix (loads s) counters

  unfoldable pub json_counters :
      List (String × String) → Dict CounterValue → Counters → Option Counters
  json_counters [] props counters = some counters
  json_counters ((prop, prefix) ∷ rest) props counters =
      and_then (add_json prefix (json_text (or_null (lookup prop props))) counters)
        (λ c. json_counters rest props c)

  unfoldable pub other_fallback : Dict CounterValue → Counters → Option Counters
  other_fallback props counters =
      if has "other_tot_bev_other" counters
      then some counters
      else set_int "other_tot_bev_other" (lookup "d702_tot_bev_other" props) counters

  -- The descale block, with the three numbers; it is left at the first that is refused.
  unfoldable pub at_most_100 : ℤ → ℤ
  at_most_100 n = if leb_int n (pos 100) then n else pos 100

  abbrev pub insert_progress : Option ℤ → Counters → Option Counters
  insert_progress none counters = none
  insert_progress (some n) counters =
      some (insert "descale_progress" (number (at_most_100 n)) counters)

  abbrev pub with_status : ℤ → Counters → Option Counters
  with_status status counters = some (insert "descale_status" (number status) counters)

  abbrev pub descale_numbers : IntRead → IntRead → IntRead → Counters → Option Counters
  descale_numbers refused threshold status counters = some counters
  descale_numbers overflow threshold status counters = none
  descale_numbers (integer calc) refused status counters = some counters
  descale_numbers (integer calc) overflow status counters = none
  descale_numbers (integer calc) (integer threshold) refused counters = some counters
  descale_numbers (integer calc) (integer threshold) overflow counters = none
  descale_numbers (integer calc) (integer threshold) (integer status) counters =
      and_then
        (if leb_int (pos 1) threshold
          then insert_progress (percent calc threshold) counters
          else some counters)
        (λ c. with_status status c)

  abbrev pub descale_object : Loaded → Counters → Option Counters
  descale_object malformed counters = some counters
  descale_object other_value_error counters = some counters
  descale_object escaped counters = none
  descale_object (object svc) counters =
      descale_numbers (int_of (with_default (pos 0) (lookup "last_4_water_calc_qty" svc)))
        (int_of (with_default (pos 1) (lookup "last_4_calc_threshold" svc)))
        (int_of (with_default (pos 0) (lookup "descale_status" svc))) counters

  abbrev pub descale_json : Option String → Counters → Option Counters
  descale_json none counters = some counters
  descale_json (some s) counters = descale_object (loads s) counters

  unfoldable pub descale : Dict CounterValue → Counters → Option Counters
  descale props counters =
      descale_json (json_text (or_null (lookup "d580_service_parameters" props))) counters

  unfoldable pub bean_uses : List (String × String) → Dict CounterValue → Counters → Option Counters
  bean_uses [] props counters = some counters
  bean_uses ((prop, key) ∷ rest) props counters =
      and_then (set_int key (lookup prop props) counters) (λ c. bean_uses rest props c)

  -- The sum, none while no part is an integer.
  abbrev pub plus_part : Option ℤ → Option ℤ → Option ℤ
  plus_part total none = total
  plus_part none (some n) = some n
  plus_part (some total) (some n) = some (add_int total n)

  unfoldable pub sum_parts : List String → Counters → Option ℤ → Option ℤ
  sum_parts [] counters total = total
  sum_parts (key ∷ keys) counters total =
      sum_parts keys counters (plus_part total (as_int (or_null (lookup key counters))))

  abbrev pub total_parts : Bool → List String
  total_parts true = "total_beverages" ∷ "total_water_beverages" ∷ []
  total_parts false = "total_black_beverages" ∷ "total_bw_beverages" ∷ "total_water_beverages" ∷ []

  unfoldable pub is_truthy : CounterValue → Bool
  is_truthy (number (pos n)) = not (leb_int (pos n) (pos 0))
  is_truthy (number (negsuc n)) = true
  is_truthy (flag b) = b
  is_truthy (text s) = not (str_eq s "")
  is_truthy null = false
  is_truthy (nested e) = not e
  is_truthy (real (pos m) k) = not (leb_int (pos m) (pos 0))
  is_truthy (real (negsuc m) k) = true
  is_truthy (infinite negative) = true
  is_truthy nan = true

  unfoldable pub other_count : Counters → CounterValue
  other_count counters =
      let first = or_null (lookup "other_tot_bev_other" counters) in
      if is_truthy first then first else or_null (lookup "other_other" counters)

  unfoldable pub computed_total : Counters → Option ℤ
  computed_total counters =
      plus_part (sum_parts (total_parts (has "total_beverages" counters)) counters none)
        (as_int (other_count counters))

  unfoldable pub set_default : String → CounterValue → Counters → Counters
  set_default key value counters = if has key counters then counters else insert key value counters

  abbrev pub with_total : Option ℤ → Counters → Counters
  with_total none counters = counters
  with_total (some total) counters =
      set_default "total_beverages" (number total) (insert "computed_total" (number total) counters)

  unfoldable pub gathered : Dict CounterValue → Option Counters
  gathered props = and_then (simple_counters counter_map props []) (λ simple.
      and_then (json_counters json_props props simple) (λ with_json.
        and_then (other_fallback props with_json) (λ with_other.
          and_then (descale props with_other) (λ descaled. bean_uses bean_map props descaled))))

  unfoldable pub parse_counters : Dict CounterValue → Option Counters
  parse_counters props =
      and_then (gathered props) (λ counters. some (with_total (computed_total counters) counters))
