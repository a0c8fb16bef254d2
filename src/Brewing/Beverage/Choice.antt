-- ===== src/Brewing/Beverage/Choice.antt =====
-- Which property gives the recipe of a brew.
use Prim.Native.String.{◌++◌ as text_append, String}
use delonghi_ha.Prelude.{
  ◌≡◌, ◌≢◌, refl, sym, ap, ◌∙◌, List, [], ◌∷◌, Bool, true, false, ◌&&◌, str_eq, eq_iff, Option,
  none, some, if_rule, Bool-cases, ◌⊎◌, inl, inr, or_cases, arith,
}
use text.Mathlib.Text.{starts_with}
use text.Mathlib.TextEquality.{starts_with_iff}
use mathlib.Core.Path.{subst}
use delonghi_ha.Prelude.Dict.{Dict}
use delonghi_ha.Prelude.First.{First, at_head, further, Never}
use delonghi_ha.Brewing.Beverage.{
  joined, contains, ends_with, is_recipe, of_profile, of_others, profiles, is_fallback,
  first_recipe, or_else, choose_recipe,
}

-- The text has the other in it, or at its end.
abbrev pub HasPart : String → String → Type 0
HasPart part s = (before : String) × (after : String) × (s ≡ joined before (text_append part after))

abbrev pub EndsWith : String → String → Type 0
EndsWith end s = (before : String) × (s ≡ joined before end)

contains-HasPart : (part s : String) → contains part s ≡ true → HasPart part s
unfolding contains joined
contains-HasPart part String.[] h =
    ("", "", subst (λ p. "" ≡ text_append p "") (sym ((eq_iff part "").0 h)) refl)
contains-HasPart part (String.◌∷◌ c rest) h =
    elim (Bool-cases (starts_with (String.◌∷◌ c rest) part)) [
      | inl e ↦
          let (after, same) = (starts_with_iff (String.◌∷◌ c rest) part).0 e in
          ("", after, sym same)
      | inr e ↦
          let (before, after, same) = contains-HasPart part rest (rw e at h) in
          (String.◌∷◌ c before, after, ap (λ t. String.◌∷◌ c t) same)
    ]

ends_with-EndsWith : (end s : String) → ends_with end s ≡ true → EndsWith end s
unfolding ends_with joined
ends_with-EndsWith end String.[] h = ("", sym ((eq_iff end "").0 h))
ends_with-EndsWith end (String.◌∷◌ c rest) h = elim (Bool-cases (str_eq (String.◌∷◌ c rest) end)) [
  | inl e ↦ ("", (eq_iff (String.◌∷◌ c rest) end).0 e)
  | inr e ↦
      let (before, same) = ends_with-EndsWith end rest (rw e at h) in
      (String.◌∷◌ c before, ap (λ t. String.◌∷◌ c t) same)
]

-- The name has a part that names the profile and the key, in one of the two orders.
abbrev pub OfProfile : String → String → String → Type 0
OfProfile key profile name =
    HasPart (joined "_rec_" (joined profile (joined "_" key))) name
    ⊎ HasPart (joined "_" (joined profile (joined "_rec_" key))) name

-- A name for all profiles, or for another of the five.
abbrev pub OfOthers : String → String → String → Type 0
OfOthers key profile name =
    EndsWith (joined "_rec_" key) name
    ⊎ ((other : String) × (other ≢ profile) × OfProfile key other name)

of_profile-OfProfile :
    (key profile name : String) → of_profile key profile name ≡ true → OfProfile key profile name
unfolding of_profile
of_profile-OfProfile key profile name h = elim (or_cases _ _ h) [
  | inl e ↦ inl (contains-HasPart _ name e)
  | inr e ↦ inr (contains-HasPart _ name e)
]

of_others-OfProfile :
    (key profile name : String) (ps : List String)
    → of_others key profile name ps ≡ true
    → (other : String) × (other ≢ profile) × OfProfile key other name
unfolding of_others
of_others-OfProfile key profile name [] h = absurd cc
of_others-OfProfile key profile name (p ∷ rest) h = elim (Bool-cases (str_eq p profile)) [
  | inl e ↦ of_others-OfProfile key profile name rest (rw e at h)
  | inr e ↦ elim (or_cases (of_profile key p name) (of_others key profile name rest) (rw e at h)) [
    | inl k ↦ (
      p,
      (λ same. ground (arith, (eq_iff p profile).1 same, e)),
      of_profile-OfProfile key p name k,
    )
    | inr k ↦ of_others-OfProfile key profile name rest k
  ]
]

is_fallback-OfOthers :
    (key profile name : String) → is_fallback key profile name ≡ true → OfOthers key profile name
unfolding is_fallback
is_fallback-OfOthers key profile name h = elim (or_cases _ _ h) [
  | inl e ↦ inl (ends_with-EndsWith _ name e)
  | inr e ↦ inr (of_others-OfProfile key profile name profiles e)
]

-- A property that holds a recipe, under a name that passes the test.
abbrev pub Stores : (String → Bool) → String × Option String → Type 0
Stores test entry =
    (value : String) × (entry.1 ≡ some value)
    × (value ≢ "")
    × (starts_with value "{" ≡ false)
    × (test entry.0 ≡ true)

is_recipe-text :
    (o : Option String)
    → is_recipe o ≡ true
    → (value : String) × (o ≡ some value) × (value ≢ "") × (starts_with value "{" ≡ false)
unfolding is_recipe
is_recipe-text none h = absurd cc
is_recipe-text (some value) h =
    (value, refl, (λ same. ground (arith, (eq_iff value "").1 same, h)), ground (arith, h))

text-is_recipe :
    (value : String) → value ≢ "" → starts_with value "{" ≡ false → is_recipe (some value) ≡ true
unfolding is_recipe
text-is_recipe value filled plain = elim (Bool-cases (str_eq value "")) [
  | inl e ↦ absurd (filled ((eq_iff value "").0 e))
  | inr e ↦ ground (arith, plain, e)
]

not_stored :
    (test : String → Bool) (name : String) (o : Option String)
    → (is_recipe o && test name) ≡ false
    → ¬ Stores test (name, o)
not_stored test name o h k =
    let (value, same, filled, plain, passes) = k in
    let recipe : is_recipe o ≡ true = ap is_recipe same ∙ text-is_recipe value filled plain in
    ground (arith, h, recipe, passes)

-- What the search gives.
abbrev pub Searched : (String → Bool) → Dict (Option String) → Option String → Type 0
Searched test props none = Never (Stores test) props
Searched test props (some value) =
    (name : String) × (test name ≡ true) × First (Stores test) (name, some value) props

Searched-later :
    (test : String → Bool) (entry : String × Option String) (props : Dict (Option String))
    (found : Option String)
    → ¬ Stores test entry
    → Searched test props found
    → Searched test (entry ∷ props) found
Searched-later test entry props none other h = (other, h)
Searched-later test entry props (some value) other h = (h.0, h.1, further other h.2)

Searched-here :
    (test : String → Bool) (name : String) (o : Option String) (props : Dict (Option String))
    → (is_recipe o && test name) ≡ true
    → Searched test ((name, o) ∷ props) o
Searched-here test name o props h =
    let (value, same, filled, plain) = is_recipe-text o (ground (arith, h)) in
    let passes : test name ≡ true = ground (arith, h) in
    subst (λ (v : Option String). Searched test ((name, v) ∷ props) v) (sym same)
      (name, passes, at_head (value, refl, filled, plain, passes))

first_recipe-Searched :
    (test : String → Bool) (props : Dict (Option String))
    → Searched test props (first_recipe test props)
unfolding first_recipe
first_recipe-Searched test [] = tt
first_recipe-Searched test ((name, o) ∷ props) =
    let rest = first_recipe-Searched test props in
    if_rule (Searched test ((name, o) ∷ props)) (is_recipe o && test name)
      (λ e. Searched-here test name o props e)
      (λ e. Searched-later test (name, o) props _ (not_stored test name o e) rest)

-- The recipe that is chosen: the first under a name that names the profile and the key, or, if no property
-- has one, the first under a name that names the key for all profiles or for another.
pub data Chosen (key profile : String) (props : Dict (Option String)) (value : String)
    : Type 0 where
  for_profile :
      (name : String)
      → First (Stores (of_profile key profile)) (name, some value) props
      → OfProfile key profile name
      → Chosen key profile props value
  for_others :
      (name : String)
      → Never (Stores (of_profile key profile)) props
      → First (Stores (is_fallback key profile)) (name, some value) props
      → OfOthers key profile name
      → Chosen key profile props value

from_others :
    (key profile : String) (props : Dict (Option String)) (value : String) (found : Option String)
    → Never (Stores (of_profile key profile)) props
    → Searched (is_fallback key profile) props found
    → found ≡ some value
    → Chosen key profile props value
from_others key profile props value none never h e = absurd cc
from_others key profile props value (some v) never h e =
    subst (Chosen key profile props) (cc e)
      (for_others h.0 never h.2 (is_fallback-OfOthers key profile h.0 h.1))

from_profile :
    (key profile : String) (props : Dict (Option String)) (value : String) (found : Option String)
    → Searched (of_profile key profile) props found
    → or_else found (first_recipe (is_fallback key profile) props) ≡ some value
    → Chosen key profile props value
unfolding or_else
from_profile key profile props value none h e =
    from_others key profile props value _ h (first_recipe-Searched (is_fallback key profile) props)
      e
from_profile key profile props value (some v) h e =
    subst (Chosen key profile props) (cc e)
      (for_profile h.0 h.2 (of_profile-OfProfile key profile h.0 h.1))

pub choose_recipe-Chosen :
    (key profile : String) (props : Dict (Option String)) (value : String)
    → choose_recipe key profile props ≡ some value
    → Chosen key profile props value
unfolding choose_recipe
choose_recipe-Chosen key profile props value e =
    from_profile key profile props value _ (first_recipe-Searched (of_profile key profile) props) e
