-- ===== src/Counters/Values.antt =====
-- The values that the steps of `parse_counters` (api.py) leave, and the exceptions that they let out.
use delonghi_ha.Prelude.{
  ◌≡◌, refl, ap, ◌∙◌, List, [], ◌∷◌, Bool, true, false, String, str_eq, Option, none, some, if_rule,
  All, Bool-cases, ◌⊎◌, inl, inr,
}
use delonghi_ha.Prelude.Int.{ℤ, pos, leb_int}
use delonghi_ha.Prelude.Dict.{Dict, lookup, insert}
use delonghi_ha.Counters.{
  CounterValue, number, flag, text, null, nested, real, infinite, nan, or_null,
}
use delonghi_ha.Counters.Parse.{
  Counters, has, counter_map, json_props, bean_map, IntRead, integer, refused, overflow, Loaded,
  malformed, other_value_error, escaped, object, and_then, int_of, text_int, insert_read,
  insert_value, set_value, insert_int, set_int, simple_counters, json_text, braced, add_entries,
  add_object, add_json, json_counters, other_fallback, insert_progress, with_default,
  descale_numbers, descale_object, descale_json, descale, bean_uses, set_default, with_total,
  gathered,
}
use package.text.Mathlib.Text.{starts_with}

abbrev pub IsInfinite : CounterValue → Type 0
IsInfinite value = (below : Bool) × (value ≡ infinite below)

-- An infinite value among the entries.
abbrev pub HasInfinite : Dict CounterValue → Type 0
HasInfinite [] = ⊥
HasInfinite ((key, value) ∷ d) = IsInfinite value ⊎ HasInfinite d

lookup-HasInfinite :
    (key : String) (d : Dict CounterValue) → IsInfinite (or_null (lookup key d)) → HasInfinite d
unfolding lookup
lookup-HasInfinite key [] h = absurd (cc (h.1))
lookup-HasInfinite key ((name, value) ∷ d) h = elim (Bool-cases (str_eq key name)) [
  | inl e ↦ inl (rw e at h)
  | inr e ↦ inr (lookup-HasInfinite key d (rw e at h))
]

default-HasInfinite :
    (n : ℤ) (key : String) (d : Dict CounterValue)
    → IsInfinite (with_default n (lookup key d))
    → HasInfinite d
default-HasInfinite n key d h = found (lookup key d) refl h
  where
    found :
        (o : Option CounterValue) → lookup key d ≡ o → IsInfinite (with_default n o) → HasInfinite d
    found none e k = absurd (cc (k.1))
    found (some value) e k = lookup-HasInfinite key d (k.0, ap or_null e ∙ k.1)

text_int-overflow : (o : Option ℤ) → text_int o ≡ overflow → ⊥
text_int-overflow none h = cc
text_int-overflow (some n) h = cc

text_int-refused : (o : Option ℤ) → text_int o ≡ refused → o ≡ none
text_int-refused none h = refl
text_int-refused (some n) h = cc

braced-same : (s t : String) → braced s ≡ some t → s ≡ t
braced-same s t h = elim (Bool-cases (starts_with s "{")) [
  | inl e ↦ let k : some s ≡ some t = rw e at h in cc
  | inr e ↦ let k : none ≡ some t = rw e at h in absurd cc
]

json_text-text : (value : CounterValue) (s : String) → json_text value ≡ some s → value ≡ text s
unfolding json_text
json_text-text (text t) s h = ap text (braced-same t s h)
json_text-text (number n) s h = cc
json_text-text (flag b) s h = cc
json_text-text null s h = cc
json_text-text (nested e) s h = cc
json_text-text (real m k) s h = cc
json_text-text (infinite below) s h = cc
json_text-text nan s h = cc

or_null-text : (o : Option CounterValue) (s : String) → or_null o ≡ text s → o ≡ some (text s)
or_null-text none s h = cc
or_null-text (some value) s h = ap some h

module _ (to_int : String → Option ℤ) (loads : String → Loaded) (percent : ℤ → ℤ → Option ℤ) where
  -- An integer, or what `int` refuses.
  abbrev pub IsRead : CounterValue → Type 0
  IsRead (number n) = Unit
  IsRead (flag b) = ⊥
  IsRead (text s) = to_int s ≡ none
  IsRead null = Unit
  IsRead (nested e) = Unit
  IsRead (real m k) = ⊥
  IsRead (infinite below) = ⊥
  IsRead nan = Unit

  abbrev pub AllRead : Counters → Type 0
  AllRead counters = All (λ (entry : String × CounterValue). IsRead entry.1) counters

  -- Why an exception may leave `parse_counters`: an infinite value, in a property or in the object of
  -- one; a text for which `json.loads` raises something other than JSONDecodeError; or a percentage of
  -- numbers that are too large.
  pub data Escape (props : Dict CounterValue) : Type 0 where
    infinite_value : HasInfinite props → Escape props
    infinite_entry :
        (prop s : String) (d : Dict CounterValue)
        → lookup prop props ≡ some (text s)
        → loads s ≡ object d
        → HasInfinite d
        → Escape props
    unreadable :
        (prop s : String)
        → lookup prop props ≡ some (text s)
        → (loads s ≡ other_value_error) ⊎ (loads s ≡ escaped)
        → Escape props
    too_large : (a b : ℤ) → percent a b ≡ none → Escape props

  insert-AllRead :
      (key : String) (value : CounterValue) (counters : Counters)
      → IsRead value
      → AllRead counters
      → AllRead (insert key value counters)
  unfolding insert
  insert-AllRead key value [] v h = (v, tt)
  insert-AllRead key value ((name, old) ∷ d) v h =
      let rest = insert-AllRead key value d v h.1 in
      if_rule AllRead (str_eq key name) (λ e. (v, h.1)) (λ e. (h.0, rest))

  pub with_total-AllRead :
      (total : Option ℤ) (counters : Counters)
      → AllRead counters
      → AllRead (with_total to_int loads percent total counters)
  unfolding set_default
  with_total-AllRead none counters h = h
  with_total-AllRead (some n) counters h =
      let counted = insert-AllRead "computed_total" (number n) counters tt h in
      if_rule AllRead (has "total_beverages" (insert "computed_total" (number n) counters))
        (λ e. counted) (λ e. insert-AllRead "total_beverages" (number n) _ tt counted)

  abbrev read : CounterValue → IntRead
  read value = int_of to_int loads percent value

  overflow-IsInfinite : (value : CounterValue) → read value ≡ overflow → IsInfinite value
  unfolding int_of
  overflow-IsInfinite (number n) h = absurd cc
  overflow-IsInfinite (flag true) h = absurd cc
  overflow-IsInfinite (flag false) h = absurd cc
  overflow-IsInfinite (text s) h = absurd (text_int-overflow (to_int s) h)
  overflow-IsInfinite null h = absurd cc
  overflow-IsInfinite (nested e) h = absurd cc
  overflow-IsInfinite (real m k) h = absurd cc
  overflow-IsInfinite (infinite below) h = (below, refl)
  overflow-IsInfinite nan h = absurd cc

  refused-IsRead : (value : CounterValue) → read value ≡ refused → IsRead value
  unfolding int_of
  refused-IsRead (number n) h = tt
  refused-IsRead (flag true) h = absurd cc
  refused-IsRead (flag false) h = absurd cc
  refused-IsRead (text s) h = text_int-refused (to_int s) h
  refused-IsRead null h = tt
  refused-IsRead (nested e) h = tt
  refused-IsRead (real m k) h = absurd cc
  refused-IsRead (infinite below) h = absurd cc
  refused-IsRead nan h = tt

  module _ (props : Dict CounterValue) where
    -- The counters are read, or an exception has left.
    abbrev pub Ends : Option Counters → Type 0
    Ends none = Escape props
    Ends (some counters) = AllRead counters

    abbrev Keeps : (Counters → Option Counters) → Type 0
    Keeps f = (counters : Counters) → AllRead counters → Ends (f counters)

    and_then-Ends :
        (o : Option Counters) (next : Counters → Option Counters)
        → Ends o
        → Keeps next
        → Ends (and_then o next)
    unfolding and_then
    and_then-Ends none next h k = h
    and_then-Ends (some counters) next h k = k counters h

    prop-Escape : (prop : String) → IsInfinite (or_null (lookup prop props)) → Escape props
    prop-Escape prop h = infinite_value (lookup-HasInfinite prop props h)

    read-Keeps :
        (key : String) (value : CounterValue) (r : IntRead)
        → read value ≡ r
        → (IsInfinite value → Escape props)
        → Keeps (insert_read to_int loads percent key value r)
    unfolding insert_read
    read-Keeps key value (integer n) e out counters h = insert-AllRead key (number n) counters tt h
    read-Keeps key value refused e out counters h =
        insert-AllRead key value counters (refused-IsRead value e) h
    read-Keeps key value overflow e out counters h = out (overflow-IsInfinite value e)

    value-Keeps :
        (key : String) (value : CounterValue)
        → (IsInfinite value → Escape props)
        → Keeps (insert_value to_int loads percent key value)
    unfolding insert_value
    value-Keeps key value out = read-Keeps key value (read value) refl out

    set_value-Keeps :
        (key : String) (value : Option CounterValue)
        → (IsInfinite (or_null value) → Escape props)
        → Keeps (set_value to_int loads percent key value)
    unfolding set_value
    set_value-Keeps key none out counters h = h
    set_value-Keeps key (some null) out counters h = h
    set_value-Keeps key (some (number n)) out counters h = value-Keeps key _ out counters h
    set_value-Keeps key (some (flag b)) out counters h = value-Keeps key _ out counters h
    set_value-Keeps key (some (text s)) out counters h = value-Keeps key _ out counters h
    set_value-Keeps key (some (nested e)) out counters h = value-Keeps key _ out counters h
    set_value-Keeps key (some (real m k)) out counters h = value-Keeps key _ out counters h
    set_value-Keeps key (some (infinite b)) out counters h = value-Keeps key _ out counters h
    set_value-Keeps key (some nan) out counters h = value-Keeps key _ out counters h

    insert_int-Keeps :
        (key : String) (value : CounterValue) (r : IntRead)
        → read value ≡ r
        → (IsInfinite value → Escape props)
        → Keeps (insert_int to_int loads percent key r)
    insert_int-Keeps key value (integer n) e out counters h =
        insert-AllRead key (number n) counters tt h
    insert_int-Keeps key value refused e out counters h = h
    insert_int-Keeps key value overflow e out counters h = out (overflow-IsInfinite value e)

    set_int-Keeps :
        (key prop : String) → Keeps (set_int to_int loads percent key (lookup prop props))
    unfolding set_int
    set_int-Keeps key prop = insert_int-Keeps key _ _ refl (prop-Escape prop)

    simple_counters-Keeps :
        (entries : List (String × String))
        → Keeps (simple_counters to_int loads percent entries props)
    unfolding simple_counters
    simple_counters-Keeps [] counters h = h
    simple_counters-Keeps ((prop, key) ∷ rest) counters h =
        and_then-Ends _ _ (set_value-Keeps key (lookup prop props) (prop-Escape prop) counters h)
          (simple_counters-Keeps rest)

    bean_uses-Keeps :
        (entries : List (String × String)) → Keeps (bean_uses to_int loads percent entries props)
    unfolding bean_uses
    bean_uses-Keeps [] counters h = h
    bean_uses-Keeps ((prop, key) ∷ rest) counters h =
        and_then-Ends _ _ (set_int-Keeps key prop counters h) (bean_uses-Keeps rest)

    other_fallback-Keeps : Keeps (other_fallback to_int loads percent props)
    unfolding other_fallback
    other_fallback-Keeps counters h =
        if_rule Ends (has "other_tot_bev_other" counters) (λ e. h)
          (λ e. set_int-Keeps "other_tot_bev_other" "d702_tot_bev_other" counters h)

    add_entries-Keeps :
        (prefix : String) (d : Dict CounterValue)
        → (HasInfinite d → Escape props)
        → Keeps (add_entries to_int loads percent prefix d)
    unfolding add_entries
    add_entries-Keeps prefix [] out counters h = h
    add_entries-Keeps prefix ((key, value) ∷ d) out counters h =
        and_then-Ends _ _ (value-Keeps _ value (λ k. out (inl k)) counters h)
          (add_entries-Keeps prefix d (λ k. out (inr k)))

    -- The text of a property, and what `json.loads` gives of it.
    module _ (prop s : String) (given : lookup prop props ≡ some (text s)) where
      add_object-Keeps :
          (prefix : String) (r : Loaded)
          → loads s ≡ r
          → Keeps (add_object to_int loads percent prefix r)
      add_object-Keeps prefix malformed e counters h = h
      add_object-Keeps prefix other_value_error e counters h = unreadable prop s given (inl e)
      add_object-Keeps prefix escaped e counters h = unreadable prop s given (inr e)
      add_object-Keeps prefix (object d) e counters h =
          add_entries-Keeps prefix d (λ k. infinite_entry prop s d given e k) counters h

      progress-Keeps :
          (a b : ℤ) (r : Option ℤ)
          → percent a b ≡ r
          → Keeps (insert_progress to_int loads percent r)
      progress-Keeps a b none e counters h = too_large a b e
      progress-Keeps a b (some n) e counters h = insert-AllRead "descale_progress" _ counters tt h

      numbers-Keeps :
          (a b c : CounterValue) (calc threshold status : IntRead)
          → read a ≡ calc
          → read b ≡ threshold
          → read c ≡ status
          → (IsInfinite a → Escape props)
          → (IsInfinite b → Escape props)
          → (IsInfinite c → Escape props)
          → Keeps (descale_numbers to_int loads percent calc threshold status)
      numbers-Keeps a b c refused t s ea eb ec oa ob oc counters h = h
      numbers-Keeps a b c overflow t s ea eb ec oa ob oc counters h = oa (overflow-IsInfinite a ea)
      numbers-Keeps a b c (integer m) refused s ea eb ec oa ob oc counters h = h
      numbers-Keeps a b c (integer m) overflow s ea eb ec oa ob oc counters h =
          ob (overflow-IsInfinite b eb)
      numbers-Keeps a b c (integer m) (integer n) refused ea eb ec oa ob oc counters h = h
      numbers-Keeps a b c (integer m) (integer n) overflow ea eb ec oa ob oc counters h =
          oc (overflow-IsInfinite c ec)
      numbers-Keeps a b c (integer m) (integer n) (integer s) ea eb ec oa ob oc counters h =
          and_then-Ends _ _
            (if_rule Ends (leb_int (pos 1) n)
              (λ e. progress-Keeps m n (percent m n) refl counters h) (λ e. h))
            (λ given_progress k. insert-AllRead "descale_status" (number s) given_progress tt k)

      descale_object-Keeps :
          (r : Loaded) → loads s ≡ r → Keeps (descale_object to_int loads percent r)
      descale_object-Keeps malformed e counters h = h
      descale_object-Keeps other_value_error e counters h = h
      descale_object-Keeps escaped e counters h = unreadable prop s given (inr e)
      descale_object-Keeps (object d) e counters h =
          let out : HasInfinite d → Escape props = λ k. infinite_entry prop s d given e k in
          numbers-Keeps _ _ _ _ _ _ refl refl refl
            (λ k. out (default-HasInfinite _ "last_4_water_calc_qty" d k))
            (λ k. out (default-HasInfinite _ "last_4_calc_threshold" d k))
            (λ k. out (default-HasInfinite _ "descale_status" d k)) counters h

    text_of :
        (prop s : String)
        → json_text (or_null (lookup prop props)) ≡ some s
        → lookup prop props ≡ some (text s)
    text_of prop s e = or_null-text _ s (json_text-text _ s e)

    add_json-Keeps :
        (prop prefix : String) (o : Option String)
        → json_text (or_null (lookup prop props)) ≡ o
        → Keeps (add_json to_int loads percent prefix o)
    add_json-Keeps prop prefix none e counters h = h
    add_json-Keeps prop prefix (some s) e counters h =
        add_object-Keeps prop s (text_of prop s e) prefix (loads s) refl counters h

    json_counters-Keeps :
        (entries : List (String × String))
        → Keeps (json_counters to_int loads percent entries props)
    unfolding json_counters
    json_counters-Keeps [] counters h = h
    json_counters-Keeps ((prop, prefix) ∷ rest) counters h =
        and_then-Ends _ _ (add_json-Keeps prop prefix _ refl counters h) (json_counters-Keeps rest)

    descale_json-Keeps :
        (o : Option String)
        → json_text (or_null (lookup "d580_service_parameters" props)) ≡ o
        → Keeps (descale_json to_int loads percent o)
    descale_json-Keeps none e counters h = h
    descale_json-Keeps (some s) e counters h =
        descale_object-Keeps "d580_service_parameters" s (text_of _ s e) (loads s) refl counters h

    pub gathered-Ends : Ends (gathered to_int loads percent props)
    unfolding gathered descale
    gathered-Ends = and_then-Ends _ _ (simple_counters-Keeps counter_map [] tt) (λ simple h1.
        and_then-Ends _ _ (json_counters-Keeps json_props simple h1) (λ with_json h2.
          and_then-Ends _ _ (other_fallback-Keeps with_json h2) (λ with_other h3.
            and_then-Ends _ _ (descale_json-Keeps _ refl with_other h3)
              (bean_uses-Keeps bean_map))))
