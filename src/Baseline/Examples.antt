-- ===== src/Baseline/Examples.antt =====
-- Tests for the counters of the user.
use delonghi_ha.Prelude.{[], ◌∷◌, Bool, leb, true, false, Option, none, some, ◌≡◌, refl}
use delonghi_ha.Prelude.Int.{ℤ, pos, negsuc}
use delonghi_ha.Prelude.Dict.{lookup, insert}
use delonghi_ha.Baseline.{
  Store, async_set_many, accepted_values, update_values, save_if, merge_with, merge,
}

abbrev ge : ℤ → ℤ → Option Bool
ge (pos a) (pos b) = some (leb b a)
ge (pos a) (negsuc b) = some true
ge (negsuc a) (pos b) = some false
ge (negsuc a) (negsuc b) = some (leb a b)

abbrev frozen : Store
frozen = record { values = []; is_loaded = true; saved = none }

-- A baseline of 140 hides the frozen 12 of the cloud, and 141 hides the baseline.
merge_test :
    (merge
        (λ n. n)
        ge
        "descale_count"
        (some (pos 12))
        (async_set_many (("descale_count", some (pos 140)) ∷ ("x", none) ∷ []) frozen)
      ≡ some (pos 140))
    × (merge
          (λ n. n)
          ge
          "descale_count"
          (some (pos 141))
          (async_set_many (("descale_count", some (pos 140)) ∷ []) frozen)
        ≡ some (pos 141))
    × (merge (λ n. n) ge "x" (some (pos 12)) frozen ≡ some (pos 12))
unfolding merge merge_with async_set_many accepted_values save_if update_values lookup insert
merge_test = (refl, refl, refl)
