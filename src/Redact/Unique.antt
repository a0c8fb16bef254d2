-- ===== src/Redact/Unique.antt =====
-- What `re.sub` makes of a text is determined (the reference of the scanner in logger.py).
use delonghi_ha.Prelude.{
  ◌≡◌, sym, ap₂, ◌∙◌, ℕ, List, ◌++◌, Bool, length, take, drop, take-append_length,
  drop-append_length, arith,
}
use delonghi_ha.Redact.{mask_email}
use delonghi_ha.Redact.Spec.{Match, Sub, no_match, replace}
use mathlib.Core.Path.{subst}

same_start : (xs ys us vs : List ℕ) → length xs ≡ length ys → xs ++ us ≡ ys ++ vs → xs ≡ ys
same_start xs ys us vs n e =
    sym (take-append_length xs us) ∙ ap₂ take n e ∙ take-append_length ys vs

same_end : (xs ys us vs : List ℕ) → length xs ≡ length ys → xs ++ us ≡ ys ++ vs → us ≡ vs
same_end xs ys us vs n e = sym (drop-append_length xs us) ∙ ap₂ drop n e ∙ drop-append_length ys vs

module _ (alnum : ℕ → Bool) where
  pub Sub-unique : {msg out out' : List ℕ} → Sub alnum msg out → Sub alnum msg out' → out ≡ out'
  Sub-unique (no_match none_here e) (no_match none_there e') = e ∙ sym e'
  Sub-unique (no_match none_here e) (replace u w v r m left long sub e') =
      absurd (none_here u w v m)
  Sub-unique (replace u w v r m left long sub e) (no_match none_there e') =
      absurd (none_there u w v m)
  Sub-unique {msg} {out} {out'} (replace u w v r m left long sub e)
        (replace u' w' v' r' m' left' long' sub' e') =
      e
      ∙ ap₂ (λ x y. x ++ y) starts (ap₂ (λ x y. mask_email x ++ y) words (Sub-unique sub same_rest))
      ∙ sym e'
    where
      same_length : length u ≡ length u'
      same_length = omega (arith, left u' w' v' m', left' u w v m)

      starts : u ≡ u'
      starts = same_start u u' (w ++ v) (w' ++ v') same_length (sym m.found ∙ m'.found)

      ends : w ++ v ≡ w' ++ v'
      ends = same_end u u' (w ++ v) (w' ++ v') same_length (sym m.found ∙ m'.found)

      there : Match alnum msg u w' v'
      there = subst (λ (x : List ℕ). Match alnum msg x w' v') (sym starts) m'

      back : Match alnum msg u' w v
      back = subst (λ (x : List ℕ). Match alnum msg x w v) starts m

      same_size : length w ≡ length w'
      same_size = omega (arith, long w' v' there, long' w v back)

      words : w ≡ w'
      words = same_start w w' v v' same_size ends

      same_rest : Sub alnum v r'
      same_rest =
          subst (λ (x : List ℕ). Sub alnum x r') (sym (same_end w w' v v' same_size ends)) sub'
