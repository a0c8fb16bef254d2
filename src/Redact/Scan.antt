-- ===== src/Redact/Scan.antt =====
-- The scans of logger.py: the first `@`, the local part before it and the domain after it.
use delonghi_ha.Prelude.{
  ◌≡◌, ◌≢◌, refl, sym, ap, ◌∙◌, ℕ, suc, ◌≤◌, List, [], ◌∷◌, ◌++◌, Bool, true, false, ◌||◌, ◌&&◌,
  ◌==◌, length, Option, none, some, All, if_rule, ==_iff, ◌⊎◌, inl, inr, arith, or_left, or_right,
  if◌then◌else◌,
}
use mathlib.Core.Path.{subst}
use delonghi_ha.Redact.{
  at_sign, dot, is_local_char, is_domain_char, with_first, partition, extend, split_local,
  starts_domain, scan_domain,
}
use delonghi_ha.Redact.Spec.{IsLocal, IsLabel, Domain, last, more, next_label}

abbrev pub NotAt : ℕ → Type 0
NotAt c = (c == at_sign) ≡ false

-- What the first `@` cuts a text into.
abbrev pub Cut : List ℕ → Option (List ℕ × List ℕ) → Type 0
Cut text none = (u v : List ℕ) → text ≢ u ++ (at_sign ∷ v)
Cut text (some (before, after)) = (text ≡ before ++ (at_sign ∷ after)) × All NotAt before

pub not_in_nil : (u v : List ℕ) → [] ≢ u ++ (at_sign ∷ v)
not_in_nil [] v e = cc
not_in_nil (c ∷ u) v e = cc

not_in_cons :
    (c : ℕ) (text : List ℕ)
    → NotAt c
    → ((u v : List ℕ) → text ≢ u ++ (at_sign ∷ v))
    → (u v : List ℕ) → c ∷ text ≢ u ++ (at_sign ∷ v)
not_in_cons c text h absent [] v e = absurd (ground (arith, h, is_at))
  where
    is_at : c ≡ at_sign
    is_at = cc
not_in_cons c text h absent (d ∷ u) v e = absent u v cc

with_first-Cut :
    (c : ℕ) (text : List ℕ) (found : Option (List ℕ × List ℕ))
    → NotAt c
    → Cut text found
    → Cut (c ∷ text) (with_first c found)
with_first-Cut c text none h cut = not_in_cons c text h cut
with_first-Cut c text (some (before, after)) h cut = (ap (◌∷◌ c) cut.0, (h, cut.1))

pub partition-Cut : (text : List ℕ) → Cut text (partition text)
unfolding partition
partition-Cut [] = not_in_nil
partition-Cut (c ∷ text) =
    if_rule (Cut (c ∷ text)) (c == at_sign)
      (λ h. (ap (λ (d : ℕ). d ∷ text) ((==_iff c at_sign).0 h), tt))
      (λ h. with_first-Cut c text (partition text) h (partition-Cut text))

module _ (alnum : ℕ → Bool) where
  abbrev pub Split : List ℕ → List ℕ × List ℕ → Type 0
  Split text (raw, local) = (text ≡ raw ++ local) × All (IsLocal alnum) local

  extend-Split :
      (c : ℕ) (text : List ℕ) (split : List ℕ × List ℕ)
      → Split text split
      → Split (c ∷ text) (extend alnum c split)
  unfolding extend
  extend-Split c text ([], local) (joins, chars) =
      if_rule (Split (c ∷ text)) (is_local_char alnum c) (λ h. (ap (◌∷◌ c) joins, (h, chars)))
        (λ h. (ap (◌∷◌ c) joins, chars))
  extend-Split c text (b ∷ raw, local) (joins, chars) = (ap (◌∷◌ c) joins, chars)

  pub split_local-Split : (text : List ℕ) → Split text (split_local alnum text)
  unfolding split_local
  split_local-Split [] = (refl, tt)
  split_local-Split (c ∷ text) =
      extend-Split c text (split_local alnum text) (split_local-Split text)

  -- No split has a shorter rest.
  split_local-All :
      (local : List ℕ) → All (IsLocal alnum) local → split_local alnum local ≡ ([], local)
  unfolding split_local extend
  split_local-All [] h = refl
  split_local-All (c ∷ local) h =
      ap (extend alnum c) (split_local-All local h.1)
      ∙ ap (λ (b : Bool). if b then ([], c ∷ local) else (c ∷ [], local)) h.0

  extend-grows :
      (c : ℕ) (split : List ℕ × List ℕ) → length (extend alnum c split).0 ≤ suc (length split.0)
  unfolding extend
  extend-grows c ([], local) =
      if_rule (λ (s : List ℕ × List ℕ). length s.0 ≤ 1) (is_local_char alnum c) (λ h. omega arith)
        (λ h. omega arith)
  extend-grows c (b ∷ raw, local) = omega arith

  pub split_local-shortest :
      (u local : List ℕ)
      → All (IsLocal alnum) local
      → length (split_local alnum (u ++ local)).0 ≤ length u
  unfolding split_local
  split_local-shortest [] local h =
      omega (arith, ap (λ (s : List ℕ × List ℕ). length s.0) (split_local-All local h))
  split_local-shortest (c ∷ u) local h =
      omega (arith, extend-grows c (split_local alnum (u ++ local)), split_local-shortest u local h)

  pub scan_domain-joins :
      (text : List ℕ) → text ≡ (scan_domain alnum text).0 ++ (scan_domain alnum text).1
  unfolding scan_domain
  scan_domain-joins [] = refl
  scan_domain-joins (c ∷ text) =
      if_rule (λ (s : List ℕ × List ℕ). c ∷ text ≡ s.0 ++ s.1)
        (is_domain_char alnum c || (c == dot && starts_domain alnum text))
        (λ h. ap (◌∷◌ c) (scan_domain-joins text)) (λ h. refl)

  abbrev Starts : List ℕ → Type 0
  Starts text = starts_domain alnum text ≡ true

  pub Domain-Starts :
      {domain : List ℕ} (rest : List ℕ) → Domain alnum domain → Starts (domain ++ rest)
  unfolding starts_domain
  Domain-Starts rest (last h) = h
  Domain-Starts rest (more h d) = h
  Domain-Starts rest (next_label h d) = h

  -- A character that the scan takes, and one that it does not.
  scan_domain-takes :
      (c : ℕ) (text : List ℕ)
      → (is_domain_char alnum c || (c == dot && starts_domain alnum text)) ≡ true
      → (scan_domain alnum (c ∷ text)).0 ≡ c ∷ (scan_domain alnum text).0
  unfolding scan_domain
  scan_domain-takes c text h =
      ap (λ (s : List ℕ × List ℕ). s.0)
        (ap
          (λ (b : Bool).
            if b
            then (c ∷ (scan_domain alnum text).0, (scan_domain alnum text).1)
            else ([], c ∷ text))
          h)

  pub scan_domain-longest :
      {domain : List ℕ} (rest : List ℕ)
      → Domain alnum domain
      → length domain ≤ length (scan_domain alnum (domain ++ rest)).0
  scan_domain-longest rest (last {c} h) =
      omega (arith, ap length (scan_domain-takes c rest (or_left _ h)))
  scan_domain-longest rest (more {c} {text} h d) = omega (
    arith,
    scan_domain-longest rest d,
    ap length (scan_domain-takes c (text ++ rest) (or_left _ h)),
  )
  scan_domain-longest rest (next_label {c} {text} h d) = omega (
    arith,
    scan_domain-longest rest d,
    ap length (scan_domain-takes c (dot ∷ (text ++ rest)) (or_left _ h)),
    ap length (scan_domain-takes dot (text ++ rest) (or_right _ (Domain-Starts rest d))),
  )

  or_and_cases : (a b c : Bool) → (a || (b && c)) ≡ true → (a ≡ true) ⊎ ((b ≡ true) × (c ≡ true))
  or_and_cases true b c h = inl refl
  or_and_cases false true c h = inr (refl, h)
  or_and_cases false false c h = absurd (ground (arith, h))

  after_dot :
      (c d e : ℕ) (text : List ℕ)
      → IsLabel alnum c
      → d ≡ dot
      → IsLabel alnum e
      → Domain alnum (e ∷ (scan_domain alnum text).0)
      → Domain alnum (c ∷ d ∷ (scan_domain alnum (e ∷ text)).0)
  after_dot c d e text h is_dot k domain =
      subst (λ (b : ℕ). Domain alnum (c ∷ b ∷ (scan_domain alnum (e ∷ text)).0)) (sym is_dot)
        (next_label h (subst (Domain alnum) (sym (scan_domain-takes e text (or_left _ k))) domain))

  -- What is taken after a label's character is a domain with it.
  after_label :
      (c : ℕ) (text : List ℕ) → IsLabel alnum c → Domain alnum (c ∷ (scan_domain alnum text).0)
  unfolding scan_domain starts_domain
  after_label c [] h = last h
  after_label c (d ∷ []) h =
      if_rule (λ (s : List ℕ × List ℕ). Domain alnum (c ∷ s.0))
        (is_domain_char alnum d || (d == dot && false))
        (λ t. elim (or_and_cases _ (d == dot) false t) [
          | inl k ↦ more h (last k)
          | inr k ↦ absurd (ground (arith, k))
        ])
        (λ t. last h)
  after_label c (d ∷ e ∷ text) h =
      let label_d = after_label d (e ∷ text) in
      let label_e = after_label e text in
      if_rule (λ (s : List ℕ × List ℕ). Domain alnum (c ∷ s.0))
        (is_domain_char alnum d || (d == dot && is_domain_char alnum e))
        (λ t. elim (or_and_cases _ (d == dot) (is_domain_char alnum e) t) [
          | inl k ↦ more h (label_d k)
          | inr k ↦ after_dot c d e text h ((==_iff d dot).0 k.0) k.1 (label_e k.1)
        ])
        (λ t. last h)

  pub scan_domain-Domain :
      (text : List ℕ) → starts_domain alnum text ≡ true → Domain alnum (scan_domain alnum text).0
  unfolding starts_domain
  scan_domain-Domain [] h = absurd (ground (arith, h))
  scan_domain-Domain (c ∷ text) h =
      subst (Domain alnum) (sym (scan_domain-takes c text (or_left _ h))) (after_label c text h)
