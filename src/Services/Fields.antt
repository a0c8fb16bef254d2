-- ===== src/Services/Fields.antt =====
-- The fields of the screen, and dictionaries that hold each key once.
use delonghi_ha.Prelude.{
  ◌≡◌, ◌++◌, refl, ap, ◌∙◌, sym, ℕ, List, [], ◌∷◌, Bool, true, false, String, str_eq, eq_iff,
  Option, none, some, if_rule, if◌then◌else◌, inl, inr, arith, Bool-cases,
}
use delonghi_ha.Prelude.Int.{ℤ}
use delonghi_ha.Prelude.Dict.{Dict, lookup, insert, lookup-insert}
use delonghi_ha.Baseline.Laws.{last_given}
use delonghi_ha.Services.{screen_fields}

-- The counter of a field and its factor: of the fifteen fields every counter has the field's name and counts
-- as it is shown, but the litres of water, which count as millilitres.
abbrev pub counted_fields : List String
counted_fields =
    "total_beverages" ∷ "total_espressos" ∷ "espresso" ∷ "coffee" ∷ "long_coffee" ∷ "doppio"
    ∷ "americano" ∷ "cappuccino" ∷ "tea" ∷ "hot_water" ∷ "descale_count" ∷ "filter_replacements"
    ∷ "beverages_since_descale" ∷ "grounds_count" ∷ []

abbrev pub is_counted : String → List String → Bool
is_counted field [] = false
is_counted field (name ∷ names) = if str_eq field name then true else is_counted field names

abbrev pub counter_of : String → Option (String × ℕ)
counter_of field =
    if is_counted field counted_fields
    then some (field, 1)
    else if str_eq field "total_water_liters"
    then some ("total_water_ml", 1000)
    else none

-- Each of these fields with itself.
abbrev plain : List String → Dict (String × ℕ)
plain [] = []
plain (name ∷ names) = (name, (name, 1)) ∷ plain names

lookup-plain :
    (field : String) (names : List String) (rest : Dict (String × ℕ))
    → lookup field (plain names ++ rest)
      ≡ (if is_counted field names then some (field, 1) else lookup field rest)
unfolding lookup
lookup-plain field [] rest = refl
lookup-plain field (name ∷ names) rest = elim (Bool-cases (str_eq field name)) [
  | inl e ↦ rw e (ap (λ n. some (n, 1)) (sym ((eq_iff field name).0 e)))
  | inr e ↦ rw e (lookup-plain field names rest)
]

pub screen_fields-counter_of : (field : String) → lookup field screen_fields ≡ counter_of field
unfolding lookup
screen_fields-counter_of field =
    lookup-plain field counted_fields (("total_water_liters", ("total_water_ml", 1000)) ∷ [])

-- Each key once.
abbrev pub Distinct : Dict ℤ → Type 0
Distinct [] = Unit
Distinct ((key, n) ∷ d) = (lookup key d ≡ none) × Distinct d

pub insert-Distinct : (key : String) (n : ℤ) (d : Dict ℤ) → Distinct d → Distinct (insert key n d)
unfolding insert lookup
insert-Distinct key n [] h = (refl, tt)
insert-Distinct key n ((name, old) ∷ d) h =
    let rest = insert-Distinct key n d h.1 in
    if_rule Distinct (str_eq key name) (λ e. h)
      (λ e. (
        lookup-insert d key name n ∙ ground (arith, h.0, (eq_iff name key), (eq_iff key name), e),
        rest,
      ))

-- The first if there is one, or else the other.
abbrev pub or_before : Option ℤ → Option ℤ → Option ℤ
or_before none before = before
or_before (some n) before = some n

pub last_given-lookup :
    (key : String) (d : Dict ℤ) (before : Option ℤ)
    → Distinct d
    → last_given key d before ≡ or_before (lookup key d) before
unfolding last_given lookup
last_given-lookup key [] before h = refl
last_given-lookup key ((name, n) ∷ d) before h = elim (Bool-cases (str_eq key name)) [
  | inl e ↦ rw e (
      last_given-lookup key d (some n) h.1
      ∙ ap (λ o. or_before o (some n)) (ap (λ k. lookup k d) ((eq_iff key name).0 e) ∙ h.0))
  | inr e ↦ rw e (last_given-lookup key d before h.1)
]
