-- ===== src/Baseline.antt =====
-- The counters that a user reads off the machine: LocalBaselineStore
-- (custom_components/delonghi_coffee/local_baseline.py).
pub mod Laws
mod Examples
use delonghi_ha.Prelude.{
  ℕ, List, [], ◌∷◌, Bool, true, false, String, Option, none, some, if◌then◌else◌,
}
use delonghi_ha.Prelude.Int.{ℤ}
use delonghi_ha.Prelude.Dict.{Dict, lookup, insert}

-- `_values`, `_loaded`, and what the storage file holds.
pub record Store : Type 0 where
  pub values : Dict ℤ
  pub is_loaded : Bool
  pub saved : Option (Dict ℤ)

-- `async_load`, with the numbers of the file.
unfoldable pub from_file : Option (Dict ℤ) → Store → Store
from_file none s = record s { is_loaded = true }
from_file (some values) s = record s { values = values; is_loaded = true }

unfoldable pub async_load : Store → Store
async_load s = if s.is_loaded then s else from_file s.saved s

-- `accepted`, from what `int(v)` gives for each value: none where it raises.
unfoldable pub accepted_values : Dict (Option ℤ) → Dict ℤ
accepted_values [] = []
accepted_values ((key, none) ∷ given) = accepted_values given
accepted_values ((key, some n) ∷ given) = (key, n) ∷ accepted_values given

-- `dict.update`
unfoldable pub update_values : Dict ℤ → Dict ℤ → Dict ℤ
update_values [] values = values
update_values ((key, n) ∷ given) values = update_values given (insert key n values)

unfoldable pub save_if : Dict ℤ → Store → Store
save_if [] s = s
save_if (entry ∷ given) s =
    let values = update_values (entry ∷ given) s.values in
    record s { values = values; saved = some values }

unfoldable pub async_set_many : Dict (Option ℤ) → Store → Store
async_set_many given s = save_if (accepted_values given) s

unfoldable pub async_clear : Store → Store
async_clear s = record s { values = []; saved = none }

-- The numbers of the cloud: integers, fractions and what cannot be compared with an integer. `at_least` is
-- `cloud_value >= baseline`, none where it raises TypeError.
module _ {A : Type 0} (of_int : ℤ → A) (at_least : A → ℤ → Option Bool) where
  abbrev pub compared : Option Bool → A → ℤ → A
  compared none cloud baseline = cloud
  compared (some true) cloud baseline = cloud
  compared (some false) cloud baseline = of_int baseline

  unfoldable pub merge_with : Option ℤ → Option A → Option A
  merge_with none cloud = cloud
  merge_with (some baseline) none = some (of_int baseline)
  merge_with (some baseline) (some cloud) = some (compared (at_least cloud baseline) cloud baseline)

  unfoldable pub merge : String → Option A → Store → Option A
  merge key cloud s = merge_with (lookup key s.values) cloud
