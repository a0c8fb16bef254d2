-- ===== src/Counters.antt =====
-- The counters of the machine: `parse_counters` of custom_components/delonghi_coffee/api.py.
pub mod Parse
pub mod Values
pub mod Laws
mod Examples
use delonghi_ha.Prelude.{ℕ, ◌/◌, ◌^◌, Bool, true, false, String, Option, none, some}
use delonghi_ha.Prelude.Int.{ℤ, pos, negsuc}

-- What a property or a JSON text holds: an integer, a Boolean, a text, None, a list or dictionary, with
-- whether it is empty, or a float: `real m k` is m / 2^k, `infinite true` is -Infinity.
pub data CounterValue : Type 0 where
  number : ℤ → CounterValue
  flag : Bool → CounterValue
  text : String → CounterValue
  null : CounterValue
  nested : Bool → CounterValue
  real : ℤ → ℕ → CounterValue
  infinite : Bool → CounterValue
  nan : CounterValue

-- `isinstance(value, int)`: a Boolean is one.
unfoldable pub as_int : CounterValue → Option ℤ
as_int (number n) = some n
as_int (flag true) = some (pos 1)
as_int (flag false) = some (pos 0)
as_int (text s) = none
as_int null = none
as_int (nested e) = none
as_int (real m k) = none
as_int (infinite negative) = none
as_int nan = none

-- The greatest integer that is not above m / 2^k.
unfoldable pub floor : ℤ → ℕ → ℤ
floor (pos m) k = pos (m / 2 ^ k)
floor (negsuc m) k = negsuc (m / 2 ^ k)

-- `counters.get(key)`
abbrev pub or_null : Option CounterValue → CounterValue
or_null none = null
or_null (some value) = value
