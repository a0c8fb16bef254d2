-- ===== src/Sensors/Laws.antt =====
-- What a counter sensor shows, and what its attributes say of it (sensor.py over local_baseline.py).
use delonghi_ha.Prelude.{ℕ, Bool, true, false, String, Option, none, some, if◌then◌else◌}
use delonghi_ha.Prelude.Int.{ℤ, pos, leb_int}
use delonghi_ha.Prelude.Dict.{Dict}
use delonghi_ha.Counters.{CounterValue, number, flag, text, nested, real, infinite, nan, floor}
use delonghi_ha.Sensors.Counter.{Shown, Sensor, show_number, Source, cloud, baseline, Attributes}

abbrev pub max_int : ℤ → ℤ → ℤ
max_int m n = if leb_int n m then m else n

abbrev pub shown_source : Option Attributes → Option Source
shown_source none = none
shown_source (some a) = some a.source

-- The number that a Boolean counts as.
abbrev pub flag_number : Bool → ℤ
flag_number true = pos 1
flag_number false = pos 0

abbrev pub cloud_if : Bool → Source
cloud_if enough = if enough then cloud else baseline

-- The cloud's value, the number shown and the source named, with a baseline `b`.
pub data Shows (s : Sensor) (b : ℤ)
    : Option CounterValue → Option Shown → Option Source → Type 0 where
  no_cloud : Shows s b none (some (show_number s (number b))) (some baseline)
  greater :
      {n : ℤ}
      → Shows s b
          (some (number n))
          (some (show_number s (number (max_int n b))))
          (some (cloud_if (leb_int b n)))
  from_flag :
      {f : Bool}
      → Shows s b
          (some (flag f))
          (if leb_int b (flag_number f) then none else some (show_number s (number b)))
          (some (cloud_if (leb_int b (flag_number f))))
  from_real :
      {m : ℤ} {k : ℕ}
      → Shows s b
          (some (real m k))
          (some (show_number s (if leb_int b (floor m k) then real m k else number b)))
          (some (cloud_if (leb_int b (floor m k))))
  from_infinite :
      {negative : Bool}
      → Shows s b
          (some (infinite negative))
          (some (show_number s (if negative then number b else infinite negative)))
          (some (if negative then baseline else cloud))
  from_nan : Shows s b (some nan) (some (show_number s (number b))) (some cloud)
  from_text : {t : String} → Shows s b (some (text t)) none (some baseline)
  from_nested : {e : Bool} → Shows s b (some (nested e)) none (some baseline)
