-- ===== src/Sensors/Counter.antt =====
-- `DeLonghiCounterSensor` and the choice of the profile (custom_components/delonghi_coffee/sensor.py).
use delonghi_ha.Prelude.{
  ℕ, Bool, true, false, not, ◌&&◌, ◌||◌, ltb, String, Option, none, some, if◌then◌else◌,
}
use delonghi_ha.Prelude.Int.{ℤ, pos, negsuc, leb_int}
use delonghi_ha.Prelude.Dict.{Dict, lookup}
use delonghi_ha.Baseline.{Store, merge}
use delonghi_ha.Counters.{
  CounterValue, number, flag, text, null, nested, real, infinite, nan, floor, as_int, or_null,
}

-- The value as it is, or what `round(value * 0.001, 1)` is for a number.
pub data Shown : Type 0 where
  plain : CounterValue → Shown
  scaled : CounterValue → Shown

-- `_counter_key`, whether `_scale` is set, `_non_numeric_warned`.
pub record Sensor : Type 0 where
  pub counter_key : String
  pub has_scale : Bool
  pub non_numeric_warned : Bool

-- `cloud_value >= baseline` and `cloud_val < baseline`; comparing a text, or a list, with an integer
-- raises TypeError. Both are false of NaN.
unfoldable pub at_least : CounterValue → ℤ → Option Bool
at_least (number n) b = some (leb_int b n)
at_least (flag f) b = some (leb_int b (if f then pos 1 else pos 0))
at_least (real m k) b = some (leb_int b (floor m k))
at_least (infinite negative) b = some (not negative)
at_least nan b = some false
at_least (text s) b = none
at_least null b = none
at_least (nested e) b = none

unfoldable pub is_less : CounterValue → ℤ → Option Bool
is_less (number n) b = some (not (leb_int b n))
is_less (flag f) b = some (not (leb_int b (if f then pos 1 else pos 0)))
is_less (real m k) b = some (not (leb_int b (floor m k)))
is_less (infinite negative) b = some negative
is_less nan b = some false
is_less (text s) b = none
is_less null b = none
is_less (nested e) b = none

unfoldable pub present : CounterValue → Option CounterValue
present (number n) = some (number n)
present (flag b) = some (flag b)
present (text s) = some (text s)
present null = none
present (nested e) = some (nested e)
present (real m k) = some (real m k)
present (infinite negative) = some (infinite negative)
present nan = some nan

abbrev pub has_value : {A : Type 0} → Option A → Bool
has_value none = false
has_value (some a) = true

-- `local_baseline` of the coordinator, if it has one.
abbrev pub baseline_of : String → Option Store → Option ℤ
baseline_of key none = none
baseline_of key (some store) = lookup key store.values

unfoldable pub is_available : Bool → Sensor → Dict CounterValue → Option Store → Bool
is_available updated s counters store =
    updated
    && (has_value (lookup s.counter_key counters) || has_value (baseline_of s.counter_key store))

abbrev pub merged : Sensor → Dict CounterValue → Option Store → Option CounterValue
merged s counters none = present (or_null (lookup s.counter_key counters))
merged s counters (some store) =
    merge number at_least s.counter_key (present (or_null (lookup s.counter_key counters))) store

-- The number that is shown, none for `unknown`, and the sensor after the warning.
abbrev pub show_number : Sensor → CounterValue → Shown
show_number s value = if s.has_scale then scaled value else plain value

unfoldable pub guarded : Sensor → Option CounterValue → Option Shown × Sensor
guarded s none = (none, s)
guarded s (some (number n)) = (some (show_number s (number n)), s)
guarded s (some (real m k)) = (some (show_number s (real m k)), s)
guarded s (some (infinite negative)) = (some (show_number s (infinite negative)), s)
guarded s (some nan) = (some (show_number s nan), s)
guarded s (some null) = (none, s)
guarded s (some (flag b)) = (none, record s { non_numeric_warned = true })
guarded s (some (text t)) = (none, record s { non_numeric_warned = true })
guarded s (some (nested e)) = (none, record s { non_numeric_warned = true })

unfoldable pub native_value : Sensor → Dict CounterValue → Option Store → Option Shown × Sensor
native_value s counters store = guarded s (merged s counters store)

-- `extra_state_attributes`.
pub data Source : Type 0 where
  cloud : Source
  baseline : Source

pub record Attributes : Type 0 where
  pub cloud_value : Shown
  pub baseline_value : Shown
  pub source : Source

unfoldable pub display_cloud : Sensor → CounterValue → Shown
display_cloud s (number n) = show_number s (number n)
display_cloud s (real m k) = show_number s (real m k)
display_cloud s (infinite negative) = show_number s (infinite negative)
display_cloud s nan = show_number s nan
display_cloud s (flag b) = plain (flag b)
display_cloud s (text t) = plain (text t)
display_cloud s null = plain null
display_cloud s (nested e) = plain (nested e)

-- The handler for TypeError.
abbrev pub is_below : Option Bool → Bool
is_below none = true
is_below (some less) = less

unfoldable pub source_of : Option CounterValue → ℤ → Source
source_of none b = baseline
source_of (some value) b = if is_below (is_less value b) then baseline else cloud

abbrev pub attributes_of : Sensor → CounterValue → Option ℤ → Option Attributes
attributes_of s value none = none
attributes_of s value (some b) = some (record {
  cloud_value = display_cloud s value;
  baseline_value = show_number s (number b);
  source = source_of (present value) b;
})

unfoldable pub extra_state_attributes :
    Sensor → Dict CounterValue → Option Store → Option Attributes
extra_state_attributes s counters store =
    attributes_of s (or_null (lookup s.counter_key counters)) (baseline_of s.counter_key store)

-- `_resolve_active_profile_id`: the first that is an integer above 0.
unfoldable pub positive : Option ℤ → Option ℕ
positive none = none
positive (some (pos n)) = if ltb 0 n then some n else none
positive (some (negsuc n)) = none

abbrev pub first_or_one : Option ℕ → Option ℕ → ℕ
first_or_one (some n) monitor = n
first_or_one none (some n) = n
first_or_one none none = 1

unfoldable pub resolve_active_profile_id : CounterValue → CounterValue → ℕ
resolve_active_profile_id active monitor =
    first_or_one (positive (as_int active)) (positive (as_int monitor))
