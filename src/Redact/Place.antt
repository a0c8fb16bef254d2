-- ===== src/Redact/Place.antt =====
-- The places of the matches in a text (`_mask_emails`, logger.py): at the first `@`, or behind it.
use delonghi_ha.Prelude.{
  ◌≡◌, refl, ap, ◌∙◌, ℕ, ◌≤◌, List, [], ◌∷◌, ◌++◌, Bool, false, length, ◌==◌, none, All, ◌⊎◌, inl,
  inr, arith, Bool-cases, length-append, append_assoc, ==_iff, ap₂,
}
use delonghi_ha.Redact.{at_sign}
use delonghi_ha.Redact.Spec.{IsLocal, Match, Sub, no_match, replace}
use delonghi_ha.Redact.Scan.{NotAt, Cut}
use mathlib.Core.Path.{subst}

abbrev Placed : (before after x y : List ℕ) → Type 0
Placed before after x y =
    ((x ≡ before) × (y ≡ after))
    ⊎ ((mid : List ℕ) × ((x ≡ before ++ (at_sign ∷ mid)) × (after ≡ mid ++ (at_sign ∷ y))))

Placed-cons :
    (c : ℕ) (before after x y : List ℕ)
    → Placed before after x y
    → Placed (c ∷ before) after (c ∷ x) y
Placed-cons c before after x y (inl h) = inl (ap (◌∷◌ c) h.0, h.1)
Placed-cons c before after x y (inr (mid, h)) = inr (mid, (ap (◌∷◌ c) h.0, h.1))

-- Any `@` of a text is the first one or behind it.
place :
    (before after x y : List ℕ)
    → All NotAt before
    → before ++ (at_sign ∷ after) ≡ x ++ (at_sign ∷ y)
    → Placed before after x y
place [] after [] y h e = inl (refl, cc)
place [] after (d ∷ x) y h e = inr (x, (ap (λ (b : ℕ). b ∷ x) cc, cc))
place (c ∷ before) after [] y h e = absurd (ground (arith, h.0, is_at))
  where
    is_at : c ≡ at_sign
    is_at = cc
place (c ∷ before) after (d ∷ x) y h e =
    subst (λ (b : ℕ). Placed (c ∷ before) after (b ∷ x) y) same_head
      (Placed-cons c before after x y (place before after x y h.1 cc))
  where
    same_head : c ≡ d
    same_head = cc

pub same_rest : (xs : List ℕ) {ys zs : List ℕ} → xs ++ ys ≡ xs ++ zs → ys ≡ zs
same_rest [] e = e
same_rest (x ∷ xs) e = same_rest xs cc

tail_of : {c d : ℕ} {xs ys : List ℕ} → c ∷ xs ≡ d ∷ ys → ys ≡ xs
tail_of e = cc

module _ (alnum : ℕ → Bool) (no_at : alnum at_sign ≡ false) where
  not_at : (c : ℕ) → IsLocal alnum c → NotAt c
  not_at c h = elim (Bool-cases (c == at_sign)) [
    | inl is ↦ absurd (ground (arith, no_at, subst (IsLocal alnum) ((==_iff c at_sign).0 is) h))
    | inr other ↦ other
  ]

  no_at_inside : (xs ys : List ℕ) → All (IsLocal alnum) (xs ++ (at_sign ∷ ys)) → ⊥
  no_at_inside [] ys h = absurd (ground (arith, not_at at_sign h.0))
  no_at_inside (x ∷ xs) ys h = no_at_inside xs ys h.1

  -- An `@` before the end of local characters is before all of them.
  before_local :
      (before mid u local : List ℕ)
      → All (IsLocal alnum) local
      → u ++ local ≡ before ++ (at_sign ∷ mid)
      → (inner : List ℕ) × ((u ≡ before ++ (at_sign ∷ inner)) × (mid ≡ inner ++ local))
  before_local before mid [] local h e =
      absurd (no_at_inside before mid (subst (All (IsLocal alnum)) e h))
  before_local [] mid (c ∷ u) local h e = (u, (ap (λ (b : ℕ). b ∷ u) cc, cc))
  before_local (b ∷ before) mid (c ∷ u) local h e =
      let (inner, (shape, rest)) = before_local before mid u local h cc in
      (inner, (same_cons (cc) shape, rest))
    where
      same_cons : {x y : ℕ} {xs ys : List ℕ} → x ≡ y → xs ≡ ys → x ∷ xs ≡ y ∷ ys
      same_cons p q = ap₂ (λ x xs. x ∷ xs) p q

  at_of :
      {msg u word v : List ℕ}
      → (m : Match alnum msg u word v)
      → msg ≡ (u ++ m.address.local) ++ (at_sign ∷ (m.address.domain ++ v))
  at_of {msg} {u} {word} {v} m = simp (m.found, m.address.shape, append_assoc)

  -- A match is at the first `@`, or it is one of the text behind that.
  abbrev pub Located : (before after u word v : List ℕ) (local domain : List ℕ) → Type 0
  Located before after u word v local domain =
      ((u ++ local ≡ before) × (domain ++ v ≡ after))
      ⊎ ((inner : List ℕ) × ((u ≡ before ++ (at_sign ∷ inner)) × Match alnum after inner word v))

  pub locate :
      (before after : List ℕ) {u word v : List ℕ}
      → All NotAt before
      → (m : Match alnum (before ++ (at_sign ∷ after)) u word v)
      → Located before after u word v m.address.local m.address.domain
  locate before after {u} {word} {v} h m =
      elim (place before after (u ++ m.address.local) (m.address.domain ++ v) h (at_of m)) [
        | inl here ↦ inl here
        | inr (mid, (behind, rest)) ↦ inr (inner_match mid behind rest)
      ]
    where
      located :
          {mid : List ℕ} (inner : List ℕ)
          → after ≡ mid ++ (at_sign ∷ (m.address.domain ++ v))
          → mid ≡ inner ++ m.address.local
          → after ≡ inner ++ (word ++ v)
      located {mid} inner rest ends =
          rest
          ∙ ap (λ (x : List ℕ). x ++ (at_sign ∷ (m.address.domain ++ v))) ends
          ∙ simp (m.address.shape, append_assoc)

      inner_match :
          (mid : List ℕ)
          → u ++ m.address.local ≡ before ++ (at_sign ∷ mid)
          → after ≡ mid ++ (at_sign ∷ (m.address.domain ++ v))
          → (inner : List ℕ) × ((u ≡ before ++ (at_sign ∷ inner)) × Match alnum after inner word v)
      inner_match mid behind rest =
          let (inner, (shape, ends)) =
            before_local before mid u m.address.local m.address.local_chars behind in
          (inner, (shape, record { found = located inner rest ends; address = m.address }))

  abbrev pub NoMatch : List ℕ → Type 0
  NoMatch msg = (u word v : List ℕ) → Match alnum msg u word v → ⊥

  pub no_at-NoMatch : (msg : List ℕ) → Cut msg none → NoMatch msg
  no_at-NoMatch msg absent u word v m =
      absent (u ++ m.address.local) (m.address.domain ++ v) (at_of m)

  module _ (before after : List ℕ) (first : All NotAt before) where
    abbrev msg : List ℕ
    msg = before ++ (at_sign ∷ after)

    -- Where no match is at the first `@`, the text up to it is kept.
    abbrev pub Skips : Type 0
    Skips =
        (u word v : List ℕ)
        → Match alnum msg u word v
        → (inner : List ℕ) × ((u ≡ before ++ (at_sign ∷ inner)) × Match alnum after inner word v)

    behind :
        (u word v : List ℕ)
        → Match alnum after u word v
        → Match alnum msg (before ++ (at_sign ∷ u)) word v
    behind u word v m = record { found = simp (m.found, append_assoc); address = m.address }

    not_before :
        (u u' : List ℕ) {P : List ℕ → Type 0}
        → (at' : (inner : List ℕ) × ((u' ≡ before ++ (at_sign ∷ inner)) × P inner))
        → length u ≤ length at'.0
        → length (before ++ (at_sign ∷ u)) ≤ length u'
    not_before u u' (inner, (shape, p)) le = omega (
      arith,
      le,
      ap length shape,
      length-append before (at_sign ∷ u),
      length-append before (at_sign ∷ inner),
    )

    same_place :
        (u word v : List ℕ)
        → (inner : List ℕ) × ((before ++ (at_sign ∷ u) ≡ before ++ (at_sign ∷ inner))
            × Match alnum after inner word v)
        → Match alnum after u word v
    same_place u word v (inner, (shape, m)) =
        subst (λ (w : List ℕ). Match alnum after w word v) same m
      where
        same : inner ≡ u
        same = tail_of (same_rest before shape)

    pub Skips-Sub :
        (out : List ℕ) → Skips → Sub alnum after out → Sub alnum msg (before ++ (at_sign ∷ out))
    Skips-Sub out skips (no_match none_left e) =
        no_match (λ u word v m. none_left _ word v (skips u word v m).1.1)
          (ap (λ (x : List ℕ). before ++ (at_sign ∷ x)) e)
    Skips-Sub out skips (replace u word v rest m leftmost longest sub e) =
        replace (before ++ (at_sign ∷ u)) word v rest (behind u word v m)
          (λ u' word' v' m'.
            not_before u u' (skips u' word' v' m') (leftmost _ word' v' (skips u' word' v' m').1.1))
          (λ word' v' m'. longest word' v' (same_place u word' v' (skips _ word' v' m'))) sub
          (simp (e, append_assoc))
