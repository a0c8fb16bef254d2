-- ===== src/Prelude/Dict.antt =====
-- Python's `dict` with text keys, in order of insertion.
use Prim.Native.String.{String}
use mathlib.Core.Path.{◌≡◌, refl}
use mathlib.Core.List.{List, [], ◌∷◌}
use mathlib.Core.Option.{Option, none, some}
use native.Mathlib.Omega.{arith}
use text.Mathlib.Text.{◌==◌}
use text.Mathlib.TextEquality.{eq_iff}
use delonghi_ha.Prelude.Tests.{if◌then◌else◌}

abbrev pub Dict {ℓ} : Type ℓ → Type ℓ
Dict V = List (String × V)

module _ {ℓ} {V : Type ℓ} where
  unfoldable pub lookup : String → Dict V → Option V
  lookup key [] = none
  lookup key ((name, value) ∷ d) = if key == name then some value else lookup key d

  -- `d[key] = value` keeps the place of a key that is there.
  unfoldable pub insert : String → V → Dict V → Dict V
  insert key value ((name, old) ∷ d) =
      if key == name then (name, value) ∷ d else (name, old) ∷ insert key value d
  insert key value [] = (key, value) ∷ []

  pub lookup-insert :
      (d : Dict V) (key other : String) (value : V)
      → lookup other (insert key value d) ≡ (if other == key then some value else lookup other d)
  unfolding insert lookup
  lookup-insert ((name, old) ∷ d) key other value =
      ground (
        arith,
        eq_iff other key,
        eq_iff other name,
        eq_iff key name,
        lookup-insert d key other value,
      )
  lookup-insert [] key other value = refl
