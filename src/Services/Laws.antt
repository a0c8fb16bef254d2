-- ===== src/Services/Laws.antt =====
-- What the service leaves in the store of the baselines.
use delonghi_ha.Prelude.{◌≡◌, ℕ, Bool, String, Option, none, some}
use delonghi_ha.Prelude.Int.{ℤ}
use delonghi_ha.Prelude.Dict.{Dict, lookup}
use delonghi_ha.Prelude.First.{First, Never}
use delonghi_ha.Baseline.{Store, merge, merge_with}
use delonghi_ha.Services.{
  ScreenReply, done, invalid_value, no_fields, escaped_overflow, Converted, no_number, overflow,
}
use delonghi_ha.Services.Fields.{or_before}
use delonghi_ha.Services.Collect.{Counts, Gives, Fails, number_given}

module _ {R A : Type 0} (convert : R → ℕ → Converted) (of_int : ℤ → A)
    (at_least : A → ℤ → Option Bool) where
  -- How the service ends, with the store before and after it.
  pub data Ends (given : Dict R) (before : Store) : ScreenReply × Store → Type 0 where
    refused_value :
        (field : String) (raw : R)
        → First (Fails convert) (field, raw) given
        → Gives convert no_number (field, raw)
        → Ends given before (invalid_value, before)
    overflowed :
        (field : String) (raw : R)
        → First (Fails convert) (field, raw) given
        → Gives convert overflow (field, raw)
        → Ends given before (escaped_overflow, before)
    refused_empty :
        Never (Fails convert) given
        → Never (Counts convert) given
        → Ends given before (no_fields, before)
    stored :
        (after : Store)
        → Never (Fails convert) given
        → ¬ Never (Counts convert) given
        → after.saved ≡ some after.values
        → ((key : String) (cloud : Option A)
            → merge of_int at_least key cloud after
              ≡ merge_with of_int at_least
                  (or_before (number_given convert key given none) (lookup key before.values))
                  cloud)
        → Ends given before (done, after)
