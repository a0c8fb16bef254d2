-- ===== src/Baseline/Laws.antt =====
-- What a sensor shows after the user has set counters.
use delonghi_ha.Prelude.{
  [], ◌∷◌, Bool, String, str_eq, Option, some, if◌then◌else◌, ◌≡◌, refl, ap, ◌∙◌,
}
use delonghi_ha.Prelude.Int.{ℤ}
use delonghi_ha.Prelude.Dict.{Dict, lookup, insert, lookup-insert}
use delonghi_ha.Baseline.{
  Store, accepted_values, update_values, save_if, async_set_many, merge_with, merge,
}

-- The value that is given last for a key.
unfoldable pub last_given : String → Dict ℤ → Option ℤ → Option ℤ
last_given key [] before = before
last_given key ((name, n) ∷ given) before =
    last_given key given (if str_eq key name then some n else before)

lookup-update_values :
    (given values : Dict ℤ) (key : String)
    → lookup key (update_values given values) ≡ last_given key given (lookup key values)
unfolding update_values last_given
lookup-update_values [] values key = refl
lookup-update_values ((name, n) ∷ given) values key =
    lookup-update_values given (insert name n values) key
    ∙ ap (last_given key given) (lookup-insert values name key n)

lookup-save_if :
    (given : Dict ℤ) (s : Store) (key : String)
    → lookup key (save_if given s).values ≡ last_given key given (lookup key s.values)
unfolding save_if last_given
lookup-save_if [] s key = refl
lookup-save_if (entry ∷ given) s key = lookup-update_values (entry ∷ given) s.values key

-- After counters are set, a sensor compares the cloud's value with the one that was set last for its key,
-- or with the one of before if none was; values that are not numbers change nothing.
pub merge-async_set_many :
    {A : Type 0} (of_int : ℤ → A) (at_least : A → ℤ → Option Bool) (given : Dict (Option ℤ))
    (s : Store) (key : String) (cloud : Option A)
    → merge of_int at_least key cloud (async_set_many given s)
      ≡ merge_with of_int at_least
          (last_given key (accepted_values given) (lookup key s.values))
          cloud
unfolding merge async_set_many
merge-async_set_many of_int at_least given s key cloud =
    ap (λ b. merge_with of_int at_least b cloud) (lookup-save_if (accepted_values given) s key)
