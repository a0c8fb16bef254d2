-- ===== src/Services/Collect.antt =====
-- The loop of the service over the fields that are given.
use delonghi_ha.Prelude.{
  ◌≡◌, ◌≢◌, refl, ap, ◌∙◌, sym, ℕ, [], ◌∷◌, Bool, true, false, String, str_eq, eq_iff, Option, none,
  some, if_rule, if◌then◌else◌, ◌⊎◌, inl, inr, arith,
}
use mathlib.Core.Path.{subst}
use delonghi_ha.Prelude.Int.{ℤ}
use delonghi_ha.Prelude.Dict.{Dict, lookup, insert, lookup-insert}
use delonghi_ha.Prelude.First.{First, at_head, further, Never}
use delonghi_ha.Services.{
  Converted, converted, no_number, overflow, Collected, updates_of, refused_at, overflow_at, put,
  field_update, and_next, collect,
}
use delonghi_ha.Services.Fields.{counter_of, Distinct, insert-Distinct, screen_fields-counter_of}

module _ {R : Type 0} (convert : R → ℕ → Converted) where
  -- An entry that is a field of the screen, and what its conversion gives.
  abbrev pub Counts : String × R → Type 0
  Counts entry =
      (entry.0 ≢ "config_entry_id")
      × (key : String) × (mult : ℕ) × (counter_of entry.0 ≡ some (key, mult))

  abbrev pub Gives : Converted → String × R → Type 0
  Gives result entry =
      (entry.0 ≢ "config_entry_id")
      × (key : String) × (mult : ℕ) × (counter_of entry.0 ≡ some (key, mult))
      × (convert entry.1 mult ≡ result)

  abbrev pub Fails : String × R → Type 0
  Fails entry = Gives no_number entry ⊎ Gives overflow entry

  -- The number given for a counter: the last one, or the one before.
  abbrev pub number_or : Converted → Option ℤ → Option ℤ
  number_or (converted n) before = some n
  number_or no_number before = before
  number_or overflow before = before

  abbrev pub number_at : Bool → Option (String × ℕ) → String → R → Option ℤ → Option ℤ
  number_at true counter key raw before = before
  number_at false none key raw before = before
  number_at false (some (name, mult)) key raw before =
      if str_eq key name then number_or (convert raw mult) before else before

  abbrev pub number_given : String → Dict R → Option ℤ → Option ℤ
  number_given key [] before = before
  number_given key ((field, raw) ∷ given) before =
      number_given key given
        (number_at (str_eq field "config_entry_id") (counter_of field) key raw before)

  -- What one entry does to the updates.
  abbrev Head : String → R → Dict ℤ → Collected → Type 0
  Head field raw acc (refused_at f) = (f ≡ field) × Gives no_number (field, raw)
  Head field raw acc (overflow_at f) = (f ≡ field) × Gives overflow (field, raw)
  Head field raw acc (updates_of u) =
      (¬ Fails (field, raw))
      × ((key : String)
          → lookup key u
            ≡ number_at (str_eq field "config_entry_id") (counter_of field) key raw
                (lookup key acc))
      × (Distinct acc → Distinct u)
      × (((u ≡ acc) × ¬ Counts (field, raw)) ⊎ (Counts (field, raw) × (u ≢ [])))

  module _ (field : String) (raw : R) (acc : Dict ℤ) where
    kept :
        (b : Bool) (o : Option (String × ℕ))
        → str_eq field "config_entry_id" ≡ b
        → counter_of field ≡ o
        → ((key : String) (before : Option ℤ) → number_at b o key raw before ≡ before)
        → ¬ Counts (field, raw)
        → Head field raw acc (updates_of acc)
    kept b o e c same idle = (
      λ h. elim h [ inl g ↦ idle (g.0, g.1, g.2, g.3) | inr g ↦ idle (g.0, g.1, g.2, g.3) ],
      λ key. sym (
          ap (λ (x : Bool). number_at x (counter_of field) key raw (lookup key acc)) e
          ∙ ap (λ (x : Option (String × ℕ)). number_at b x key raw (lookup key acc)) c
          ∙ same key (lookup key acc)),
      λ h. h,
      inl (refl, idle),
    )

    insert-filled : (key : String) (n : ℤ) (d : Dict ℤ) → insert key n d ≢ []
    unfolding insert
    insert-filled key n [] h = cc
    insert-filled key n ((name, old) ∷ d) h =
        if_rule (λ (u : Dict ℤ). u ≢ []) (str_eq key name) (λ e k. cc) (λ e k. cc) h

    module _ (key : String) (mult : ℕ) (other : str_eq field "config_entry_id" ≡ false)
        (counts : counter_of field ≡ some (key, mult)) where
      is_field : field ≢ "config_entry_id"
      is_field h = ground (arith, (eq_iff field "config_entry_id").1 h, other)

      same_result : (r r2 : Converted) → convert raw mult ≡ r → Gives r2 (field, raw) → r ≡ r2
      same_result r r2 e g =
          let same : some (key, mult) ≡ some (g.1, g.2) = sym counts ∙ g.3 in
          let factor : mult ≡ g.2 = cc in sym e ∙ ap (convert raw) factor ∙ g.4

      given_field :
          (r : Converted) → convert raw mult ≡ r → Head field raw acc (put convert field key r acc)
      given_field no_number e = (refl, (is_field, key, mult, counts, e))
      given_field overflow e = (refl, (is_field, key, mult, counts, e))
      given_field (converted n) e = (
        λ h. elim h [
          | inl g ↦ let k : converted n ≡ no_number = same_result _ _ e g in cc
          | inr g ↦ let k : converted n ≡ overflow = same_result _ _ e g in cc
        ],
        λ name.
            lookup-insert acc key name n
            ∙ sym (
                ap (λ (x : Bool). number_at x (counter_of field) name raw (lookup name acc)) other
                ∙ ap (λ (x : Option (String × ℕ)). number_at false x name raw (lookup name acc))
                    counts
                ∙ ap
                    (λ (r : Converted).
                      if str_eq name key then number_or r (lookup name acc) else lookup name acc)
                    e),
        λ h. insert-Distinct key n acc h,
        inr ((is_field, key, mult, counts), insert-filled key n acc),
      )

    update-Head :
        (o : Option (String × ℕ))
        → counter_of field ≡ o
        → Head field raw acc (field_update convert field raw acc o)
    unfolding field_update
    update-Head none c =
        kept (str_eq field "config_entry_id") none refl c
          (λ key before. ignored (str_eq field "config_entry_id") key before)
          (λ h. let k : none ≡ some (h.1, h.2) = sym c ∙ h.3 in cc)
      where
        ignored :
            (b : Bool) (key : String) (before : Option ℤ) → number_at b none key raw before ≡ before
        ignored true key before = refl
        ignored false key before = refl
    update-Head (some (key, mult)) c =
        if_rule (Head field raw acc) (str_eq field "config_entry_id")
          (λ e.
            kept true (some (key, mult)) e c (λ name before. refl)
              (λ h. h.0 ((eq_iff field "config_entry_id").0 e)))
          (λ e. given_field key mult e c (convert raw mult) refl)

  -- What the loop gives from some updates on.
  abbrev pub Collects : Dict R → Dict ℤ → Collected → Type 0
  Collects given acc (refused_at f) =
      (raw : R) × First Fails (f, raw) given × Gives no_number (f, raw)
  Collects given acc (overflow_at f) =
      (raw : R) × First Fails (f, raw) given × Gives overflow (f, raw)
  Collects given acc (updates_of u) =
      Never Fails given
      × ((key : String) → lookup key u ≡ number_given key given (lookup key acc))
      × (Distinct acc → Distinct u)
      × (((u ≡ acc) × Never Counts given) ⊎ ((¬ Never Counts given) × (u ≢ [])))

  after_head :
      (field : String) (raw : R) (given : Dict R) (acc u : Dict ℤ) (end : Collected)
      → Head field raw acc (updates_of u)
      → Collects given u end
      → Collects ((field, raw) ∷ given) acc end
  after_head field raw given acc u (refused_at f) h k = (k.0, further h.0 k.1, k.2)
  after_head field raw given acc u (overflow_at f) h k = (k.0, further h.0 k.1, k.2)
  after_head field raw given acc u (updates_of v) h k = (
    (h.0, k.0),
    λ key. k.1 key ∙ ap (number_given key given) (h.1 key),
    λ d. k.2 (h.2 d),
    settled h.3 k.3,
  )
    where
      settled :
          ((u ≡ acc) × ¬ Counts (field, raw)) ⊎ (Counts (field, raw) × (u ≢ []))
          → ((v ≡ u) × Never Counts given) ⊎ ((¬ Never Counts given) × (v ≢ []))
          → ((v ≡ acc) × Never Counts ((field, raw) ∷ given))
            ⊎ ((¬ Never Counts ((field, raw) ∷ given)) × (v ≢ []))
      settled (inl a) (inl b) = inl (b.0 ∙ a.0, (a.1, b.1))
      settled (inl a) (inr b) = inr ((λ never. b.0 never.1), b.1)
      settled (inr a) (inl b) = inr ((λ never. never.0 a.0), λ e. a.1 (sym b.0 ∙ e))
      settled (inr a) (inr b) = inr ((λ never. never.0 a.0), b.1)

  from_head :
      (field : String) (raw : R) (given : Dict R) (acc : Dict ℤ) (head : Collected)
      → Head field raw acc head
      → ((u : Dict ℤ) → Collects given u (collect convert given u))
      → Collects ((field, raw) ∷ given) acc (and_next convert (collect convert given) head)
  from_head field raw given acc (refused_at f) h rest =
      let bad : Gives no_number (f, raw) =
        subst (λ (x : String). Gives no_number (x, raw)) (sym h.0) h.1 in
      (
        raw,
        subst (λ (x : String). First Fails (f, raw) ((x, raw) ∷ given)) h.0 (at_head (inl bad)),
        bad,
      )
  from_head field raw given acc (overflow_at f) h rest =
      let bad : Gives overflow (f, raw) =
        subst (λ (x : String). Gives overflow (x, raw)) (sym h.0) h.1 in
      (
        raw,
        subst (λ (x : String). First Fails (f, raw) ((x, raw) ∷ given)) h.0 (at_head (inr bad)),
        bad,
      )
  from_head field raw given acc (updates_of u) h rest =
      after_head field raw given acc u (collect convert given u) h (rest u)

  pub collect-Collects :
      (given : Dict R) (acc : Dict ℤ) → Collects given acc (collect convert given acc)
  unfolding collect
  collect-Collects [] acc = (tt, (λ key. refl), (λ h. h), inl (refl, tt))
  collect-Collects ((field, raw) ∷ given) acc =
      from_head field raw given acc _
        (subst
          (λ (o : Option (String × ℕ)). Head field raw acc (field_update convert field raw acc o))
          (sym (screen_fields-counter_of field))
          (update-Head field raw acc (counter_of field) refl))
        (λ u. collect-Collects given u)
