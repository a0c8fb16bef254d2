-- ===== src/Redact/Round.antt =====
-- One round of the scan in `_mask_emails` (logger.py), with the rounds after it.
use delonghi_ha.Prelude.{
  ◌≡◌, ◌≢◌, refl, sym, ap, ◌∙◌, ℕ, ◌≤◌, ◌<◌, List, [], ◌∷◌, ◌++◌, Bool, true, false, length, Option,
  none, some, All, inl, inr, arith, length-append, append_assoc, if_rule, ap₂,
}
use delonghi_ha.Redact.{
  at_sign, split_local, starts_domain, scan_domain, is_address, address_part, next_part, and_then,
  mask_email,
}
use delonghi_ha.Redact.Spec.{Match, Sub, no_match, replace}
use delonghi_ha.Redact.Scan.{
  NotAt, Cut, split_local-Split, split_local-shortest, scan_domain-joins, scan_domain-longest,
  scan_domain-Domain, Domain-Starts,
}
use delonghi_ha.Redact.Place.{locate, no_at-NoMatch, Skips, Skips-Sub}
use mathlib.Core.Path.{subst}

module _ (alnum : ℕ → Bool) (no_at : alnum at_sign ≡ false) where
  raw_of : List ℕ → List ℕ
  raw_of before = (split_local alnum before).0

  local_of : List ℕ → List ℕ
  local_of before = (split_local alnum before).1

  joins : (before : List ℕ) → before ≡ raw_of before ++ local_of before
  unfolding raw_of local_of
  joins before = (split_local-Split alnum before).0

  is_address-parts :
      (local after : List ℕ)
      → is_address alnum local after ≡ true
      → (local ≢ []) × (starts_domain alnum after ≡ true)
  is_address-parts [] after h = absurd (ground (arith, h))
  is_address-parts (c ∷ local) after h = ((λ e. cc), h)

  is_address-no :
      (local after : List ℕ)
      → is_address alnum local after ≡ false
      → starts_domain alnum after ≡ true
      → local ≡ []
  is_address-no [] after h k = refl
  is_address-no (c ∷ local) after h k = absurd (ground (arith, h, k))

  empty_length : (xs : List ℕ) → length xs ≡ 0 → xs ≡ []
  empty_length [] h = refl
  empty_length (x ∷ xs) h = absurd (omega (arith, h))

  domain_of : List ℕ → List ℕ
  domain_of after = (scan_domain alnum after).0

  rest_of : List ℕ → List ℕ
  rest_of after = (scan_domain alnum after).1

  word_of : List ℕ → List ℕ → List ℕ
  word_of before after = local_of before ++ (at_sign ∷ domain_of after)

  module _ (before after : List ℕ) (first : All NotAt before) where
    abbrev msg : List ℕ
    msg = before ++ (at_sign ∷ after)

    -- A round without an address: a match at the first `@` would have made one.
    no_address-Skips :
        is_address alnum (local_of before) after ≡ false → Skips alnum no_at before after first
    unfolding raw_of local_of
    no_address-Skips h u word v m = elim (locate alnum no_at before after first m) [
      | inl here ↦ absurd (none_here here)
      | inr inner ↦ inner
    ]
      where
        no_local : local_of before ≡ [] → u ++ m.address.local ≡ before → m.address.local ≡ []
        no_local e is_before = empty_length m.address.local (
            omega (
              arith,
              length-append u m.address.local,
              split_local-shortest alnum u m.address.local m.address.local_chars,
              ap (λ (x : List ℕ). length (raw_of x)) is_before,
              ap length is_before,
              ap length (joins before),
              length-append (raw_of before) (local_of before),
              ap length e,
            ))

        none_here : (u ++ m.address.local ≡ before) × (m.address.domain ++ v ≡ after) → ⊥
        none_here (is_before, is_after) = m.address.some_local (
            no_local
              (is_address-no (local_of before) after h (
                subst (λ (x : List ℕ). starts_domain alnum x ≡ true) is_after
                  (Domain-Starts alnum v m.address.is_domain)))
              is_before)

    module _ (h : is_address alnum (local_of before) after ≡ true) where
      found_here : Match alnum msg (raw_of before) (word_of before after) (rest_of after)
      unfolding word_of domain_of rest_of raw_of local_of
      found_here = record {
        found = regroup;
        address = record {
          local = local_of before;
          domain = (domain_of after);
          some_local = (is_address-parts (local_of before) after h).0;
          local_chars = (split_local-Split alnum before).1;
          is_domain = scan_domain-Domain alnum after (is_address-parts (local_of before) after h).1;
          shape = refl;
        };
      }
        where
          regroup : msg ≡ raw_of before ++ ((word_of before after) ++ (rest_of after))
          regroup =
              ap₂ (λ b a. b ++ (at_sign ∷ a)) (joins before) (scan_domain-joins alnum after)
              ∙ simp append_assoc

      leftmost_here :
          (u word v : List ℕ) → Match alnum msg u word v → length (raw_of before) ≤ length u
      unfolding raw_of
      leftmost_here u word v m = elim (locate alnum no_at before after first m) [
        | inl (is_before, is_after) ↦ omega (
          arith,
          split_local-shortest alnum u m.address.local m.address.local_chars,
          ap (λ (x : List ℕ). length (raw_of x)) is_before,
        )
        | inr (inner, (shape, m')) ↦ omega (
          arith,
          ap length shape,
          length-append before (at_sign ∷ inner),
          ap length (joins before),
          length-append (raw_of before) (local_of before),
        )
      ]

      longest_here :
          (word v : List ℕ)
          → Match alnum msg (raw_of before) word v
          → length word ≤ length (word_of before after)
      unfolding word_of domain_of
      longest_here word v m = elim (locate alnum no_at before after first m) [
        | inl (is_before, is_after) ↦ omega (
          arith,
          ap length m.address.shape,
          length-append m.address.local (at_sign ∷ m.address.domain),
          length-append (local_of before) (at_sign ∷ (domain_of after)),
          ap length is_before,
          ap length (joins before),
          length-append (raw_of before) m.address.local,
          length-append (raw_of before) (local_of before),
          scan_domain-longest alnum v m.address.is_domain,
          ap (λ (x : List ℕ). length (scan_domain alnum x).0) is_after,
        )
        | inr (inner, (shape, m')) ↦ absurd (
            omega (
              arith,
              ap length shape,
              length-append before (at_sign ∷ inner),
              ap length (joins before),
              length-append (raw_of before) (local_of before),
            ))
      ]

      address_part-Sub :
          (out : List ℕ)
          → Sub alnum (rest_of after) out
          → Sub alnum msg (raw_of before ++ (mask_email (word_of before after) ++ out))
      address_part-Sub out sub =
          replace (raw_of before) (word_of before after) (rest_of after) out found_here
            leftmost_here longest_here sub refl

  -- A round and the rounds after it.
  shorter : (before after : List ℕ) → length (rest_of after) < length (before ++ (at_sign ∷ after))
  unfolding rest_of domain_of
  shorter before after = omega (
    arith,
    length-append before (at_sign ∷ after),
    ap length (scan_domain-joins alnum after),
    length-append (domain_of after) (rest_of after),
  )

  after-shorter : (before after : List ℕ) → length after < length (before ++ (at_sign ∷ after))
  after-shorter before after = omega (arith, length-append before (at_sign ∷ after))

  pub round-Sub :
      (loop : List ℕ → List ℕ) (text : List ℕ) (found : Option (List ℕ × List ℕ))
      → Cut text found
      → ((rest : List ℕ) → length rest < length text → Sub alnum rest (loop rest))
      → Sub alnum text (and_then loop text (next_part alnum found))
  unfolding next_part address_part rest_of domain_of local_of raw_of word_of
  round-Sub loop text none cut later = no_match (no_at-NoMatch alnum no_at text cut) refl
  round-Sub loop text (some (before, after)) (shape, first) later =
      subst
        (λ (t : List ℕ). Sub alnum t (and_then loop text (next_part alnum (some (before, after)))))
        (sym shape)
        (if_rule
          (λ (s : List ℕ × List ℕ). Sub alnum (before ++ (at_sign ∷ after)) (s.0 ++ loop s.1))
          (is_address alnum (split_local alnum before).1 after)
          (λ h.
            subst (Sub alnum _)
              (sym (
                append_assoc (raw_of before) (mask_email (word_of before after))
                  (loop (rest_of after))))
              (address_part-Sub before after first h _ (later _ (less (shorter before after)))))
          (λ h. subst (Sub alnum _) (sym (append_assoc before (at_sign ∷ []) (loop after))) (
            Skips-Sub alnum no_at before after first (loop after)
              (no_address-Skips before after first h)
              (later after (less (after-shorter before after))))))
    where
      less : {n : ℕ} → n < length (before ++ (at_sign ∷ after)) → n < length text
      less lt = omega (arith, lt, ap length shape)
