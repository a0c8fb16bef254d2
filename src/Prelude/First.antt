-- ===== src/Prelude/First.antt =====
-- The first entry of a list with a property, and that there is none.
use mathlib.Core.List.{List, ◌∷◌}
use delonghi_ha.Prelude.Lists.{All}

module _ {A : Type 0} (P : A → Type 0) where
  -- `x` is the first entry with the property.
  pub data First (x : A) : List A → Type 0 where
    at_head : {xs : List A} → P x → First x (x ∷ xs)
    further : {y : A} {xs : List A} → ¬ P y → First x xs → First x (y ∷ xs)

  -- No entry has the property.
  abbrev pub Never : List A → Type 0
  Never xs = All (λ x. ¬ P x) xs
