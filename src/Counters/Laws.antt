-- ===== src/Counters/Laws.antt =====
-- The total of the parsed counters (`parse_counters`, api.py).
use delonghi_ha.Prelude.{
  ◌≡◌, Bool, List, [], ◌∷◌, true, false, not, ◌&&◌, String, str_eq, Option, none, some,
  if◌then◌else◌,
}
use delonghi_ha.Prelude.Int.{ℤ, add_int}
use delonghi_ha.Prelude.Dict.{Dict, lookup}
use delonghi_ha.Counters.{CounterValue, number, as_int, or_null}
use delonghi_ha.Counters.Parse.{Counters, has, Loaded, plus_part, is_truthy, gathered}
use delonghi_ha.Counters.Values.{AllRead, Escape}

-- The integers among some values, and their sum from left to right.
abbrev pub with_int : Option ℤ → List ℤ → List ℤ
with_int none ns = ns
with_int (some n) ns = n ∷ ns

abbrev pub ints : List CounterValue → List ℤ
ints [] = []
ints (value ∷ values) = with_int (as_int value) (ints values)

abbrev pub sum_from : ℤ → List ℤ → ℤ
sum_from n [] = n
sum_from n (m ∷ ms) = sum_from (add_int n m) ms

abbrev pub total_of : List ℤ → Option ℤ
total_of [] = none
total_of (n ∷ ns) = some (sum_from n ns)

abbrev pub under : String → Counters → CounterValue
under key counters = or_null (lookup key counters)

module _ (to_int : String → Option ℤ) (loads : String → Loaded) (percent : ℤ → ℤ → Option ℤ) where
  -- The counters of the disjoint kinds of drinks: all drinks, if the machine counts these, or else those
  -- without milk and those with it; those of water; and the other ones, which count under the second name
  -- where the first has nothing or is zero.
  abbrev pub other_kind : Counters → CounterValue
  other_kind counters =
      if is_truthy to_int loads percent (under "other_tot_bev_other" counters)
      then under "other_tot_bev_other" counters
      else under "other_other" counters

  abbrev pub kinds_if : Bool → Counters → List CounterValue
  kinds_if true counters =
      under "total_beverages" counters
      ∷ under "total_water_beverages" counters
      ∷ other_kind counters
      ∷ []
  kinds_if false counters =
      under "total_black_beverages" counters
      ∷ under "total_bw_beverages" counters
      ∷ under "total_water_beverages" counters
      ∷ other_kind counters
      ∷ []

  abbrev pub kinds : Counters → List CounterValue
  kinds counters = kinds_if (has "total_beverages" counters) counters

  abbrev plus_all : Option ℤ → List CounterValue → Option ℤ
  plus_all total [] = total
  plus_all total (value ∷ values) =
      plus_all (plus_part to_int loads percent total (as_int value)) values

  -- The dictionary with a total, at any key.
  abbrev pub totalled : Option ℤ → Counters → String → Option CounterValue
  totalled none counters key = lookup key counters
  totalled (some n) counters key =
      if str_eq key "computed_total"
      then some (number n)
      else if str_eq key "total_beverages" && not (has "total_beverages" counters)
      then some (number n)
      else lookup key counters

  -- What is parsed of properties, or that an exception leaves.
  abbrev pub Parsed : Dict CounterValue → Option Counters → Type 0
  Parsed props none = Escape to_int loads percent props
  Parsed props (some out) =
      AllRead to_int loads percent out
      × ((before : Counters) × (gathered to_int loads percent props ≡ some before)
          × ((key : String)
              → lookup key out ≡ totalled (total_of (ints (kinds before))) before key))
