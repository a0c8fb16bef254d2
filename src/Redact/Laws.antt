-- ===== src/Redact/Laws.antt =====
-- `_mask_emails` and `sanitize` (logger.py) against the reference expression.
use delonghi_ha.Prelude.{
  ◌≡◌, ◌↔◌, refl, sym, ℕ, zero, suc, ◌≤◌, List, [], ◌∷◌, Bool, false, length, arith, length-append,
  if_rule, ltb, ltb→lt, length-take, min, take, ◌-◌,
}
use delonghi_ha.Redact.{
  at_sign, partition, mask_from, mask_emails, truncated, max_len, truncate, sanitize,
}
use delonghi_ha.Redact.Spec.{Sub, no_match}
use delonghi_ha.Redact.Scan.{partition-Cut, not_in_nil}
use delonghi_ha.Redact.Round.{round-Sub}
use delonghi_ha.Redact.Unique.{Sub-unique}
use delonghi_ha.Redact.Place.{no_at-NoMatch}
use mathlib.Core.Path.{subst}

module _ (alnum : ℕ → Bool) (no_at : alnum at_sign ≡ false) where
  mask_from-Sub :
      (fuel : ℕ) (text : List ℕ) → length text ≤ fuel → Sub alnum text (mask_from alnum fuel text)
  unfolding mask_from
  mask_from-Sub zero [] le = no_match (no_at-NoMatch alnum no_at [] not_in_nil) refl
  mask_from-Sub zero (c ∷ text) le = absurd (omega (arith, le))
  mask_from-Sub (suc fuel) text le =
      round-Sub alnum no_at (mask_from alnum fuel) text (partition text) (partition-Cut text)
        (λ rest less. mask_from-Sub fuel rest (omega (arith, le, less)))

  mask_emails-Sub : (msg : List ℕ) → Sub alnum msg (mask_emails alnum msg)
  unfolding mask_emails
  mask_emails-Sub msg = mask_from-Sub (length msg) msg (omega arith)

length-truncate : (msg : List ℕ) → length (truncate msg) ≡ min (length msg) max_len
unfolding truncate
length-truncate msg =
    if_rule (λ (out : List ℕ). length out ≡ min (length msg) max_len) (ltb max_len (length msg))
      (λ h. omega (
        arith,
        ltb→lt max_len (length msg) h,
        length-append (take (max_len - length truncated) msg) truncated,
        length-take (max_len - length truncated) msg,
      ))
      (λ h. ground (arith, h))

-- If `@` is not alphanumeric: after the other expressions, `sanitize` gives the text that `re.sub`
-- makes with the reference expression, and that is the only one. It replaces, from left to right and
-- each time in the rest, the first match, and of the matches that start there the longest, by the
-- masked address, until there is none. What the other expressions are given is as long as the
-- message, up to 65536 characters.
pub sanitize-Sub :
    (alnum : ℕ → Bool) (patterns : List ℕ → List ℕ) (msg out : List ℕ)
    → alnum at_sign ≡ false
    → (Sub alnum (patterns (truncate msg)) out ↔ (out ≡ sanitize alnum patterns msg))
      × (length (truncate msg) ≡ min (length msg) max_len)
unfolding sanitize
sanitize-Sub alnum patterns msg out no_at = (
  (
    λ s. Sub-unique alnum s scanned,
    λ e. subst (Sub alnum (patterns (truncate msg))) (sym e) scanned,
  ),
  length-truncate msg,
)
  where
    scanned : Sub alnum (patterns (truncate msg)) (mask_emails alnum (patterns (truncate msg)))
    scanned = mask_emails-Sub alnum no_at (patterns (truncate msg))
