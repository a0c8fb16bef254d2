-- ===== src/Daedalus/Redact/Replace.antt =====
-- What the replacements of redact.py leave of a text.
use delonghi_ha.Prelude.{
  or_false, both_false, or_second, and_true, and_false, and_step, ◌≡◌, refl, sym, ap, ap₂, ◌∙◌, ℕ,
  zero, suc, ◌-◌, List, [], ◌∷◌, ◌++◌, Bool, true, false, ◌&&◌, ◌||◌, ◌==◌, length, if_rule, ==_iff,
  Bool-cases, ◌⊎◌, inl, inr, arith,
}
use delonghi_ha.Daedalus.Redact.{
  redacted_host, starts_with, has_form, same_form, replace_from, elem, replace_all,
}
use mathlib.Core.Path.{subst}

-- Texts without `*`.
abbrev pub has_star : List ℕ → Bool
has_star [] = false
has_star (c ∷ text) = (0x2A == c) || has_star text

ends_star : List ℕ → Bool
ends_star [] = true
ends_star (c ∷ text) = has_star (c ∷ text) && ends_star text

-- A text without `*` starts where a text with `*` begins only if it is inside that.
starts_with-cut :
    (g s rest : List ℕ)
    → has_star g ≡ false
    → has_star s ≡ true
    → starts_with g (s ++ rest) ≡ starts_with g s
starts_with-cut [] [] rest h k = refl
starts_with-cut [] (c ∷ s) rest h k = refl
starts_with-cut (d ∷ g) [] rest h k = absurd (ground (arith, k))
starts_with-cut (d ∷ g) (c ∷ s) rest h k = elim (Bool-cases (0x2A == c)) [
  | inl is ↦ and_false _ (differs is) ∙ sym (and_false _ (differs is))
  | inr other ↦
      ap (λ (b : Bool). (d == c) && b)
        (starts_with-cut g s rest (or_false (0x2A == d) (has_star g) h).1 (or_second _ other k))
]
  where
    differs : (0x2A == c) ≡ true → (d == c) ≡ false
    differs is = ground (arith, is, (or_false (0x2A == d) (has_star g) h).0)

-- Nothing without `*` that is not inside `s` is in `s ++ rest` either, if it is not in `rest`.
has_form-append :
    (g s rest : List ℕ)
    → has_star g ≡ false
    → ends_star s ≡ true
    → has_form g s ≡ false
    → has_form g rest ≡ false
    → has_form g (s ++ rest) ≡ false
unfolding ends_star
has_form-append g [] rest h e k r = r
has_form-append g (c ∷ s) rest h e k r =
    both_false
      (starts_with-cut g (c ∷ s) rest h (and_true _ (ends_star s) e).0
        ∙ (or_false _ (has_form g s) k).0)
      (has_form-append g s rest h (and_true _ (ends_star s) e).1 (or_false _ (has_form g s) k).1 r)

-- What stands at the start after the replacement stood there before.
starts_with-replace :
    (h f : List ℕ) (text : List ℕ)
    → has_star h ≡ false
    → starts_with h text ≡ false
    → starts_with h (replace_from f 0 text) ≡ false
unfolding replace_from
starts_with-replace [] f text k e = absurd (ground (arith, e))
starts_with-replace (d ∷ h) f [] k e = e
starts_with-replace (d ∷ h) f (c ∷ text) k e =
    if_rule (λ (out : List ℕ). starts_with (d ∷ h) out ≡ false) (starts_with f (c ∷ text))
      (λ s. and_false {a = d == 0x2A} _ (ground (arith, (or_false (0x2A == d) (has_star h) k).0)))
      (λ s.
        and_step (d == c) e (starts_with-replace h f text (or_false (0x2A == d) (has_star h) k).1))

starts_with-kept :
    (h f : List ℕ) (c : ℕ) (text : List ℕ)
    → has_star h ≡ false
    → starts_with h (c ∷ text) ≡ false
    → starts_with h (c ∷ replace_from f 0 text) ≡ false
starts_with-kept [] f c text k e = absurd (ground (arith, e))
starts_with-kept (d ∷ h) f c text k e =
    and_step (d == c) e (starts_with-replace h f text (or_false (0x2A == d) (has_star h) k).1)

not_empty : (g : List ℕ) → has_form g redacted_host ≡ false → starts_with g [] ≡ false
not_empty [] h = absurd (ground (arith, h))
not_empty (c ∷ g) h = refl

pub same_form-eq : (a b : List ℕ) → same_form a b ≡ true → a ≡ b
same_form-eq [] [] h = refl
same_form-eq [] (c ∷ b) h = absurd (ground (arith, h))
same_form-eq (d ∷ a) [] h = absurd (ground (arith, h))
same_form-eq (d ∷ a) (c ∷ b) h =
    let (head, tail) = and_true (d == c) (same_form a b) h in
    ap₂ (λ x xs. x ∷ xs) ((==_iff d c).0 head) (same_form-eq a b tail)

module _ (g : List ℕ) (no_star : has_star g ≡ false)
    (outside : has_form g redacted_host ≡ false) where
  -- An occurrence after the replacement was one before, and none of the replaced text.
  has_form-replaced :
      (f rest : List ℕ) → has_form g rest ≡ false → has_form g (redacted_host ++ rest) ≡ false
  unfolding ends_star
  has_form-replaced f rest h = has_form-append g redacted_host rest no_star refl outside h

  -- The replaced text is `g`, or `g` is nowhere.
  Gone : List ℕ → List ℕ → Type 0
  Gone f text = (f ≡ g) ⊎ (has_form g text ≡ false)

  Gone-here :
      (f : List ℕ) (c : ℕ) (text : List ℕ)
      → Gone f (c ∷ text)
      → starts_with f (c ∷ text) ≡ false
      → starts_with g (c ∷ text) ≡ false
  unfolding Gone
  Gone-here f c text (inl e) s = subst (λ (h : List ℕ). starts_with h (c ∷ text) ≡ false) e s
  Gone-here f c text (inr h) s = (or_false (starts_with g (c ∷ text)) _ h).0

  Gone-later : (f : List ℕ) (c : ℕ) (text : List ℕ) → Gone f (c ∷ text) → Gone f text
  unfolding Gone
  Gone-later f c text (inl e) = inl e
  Gone-later f c text (inr h) = inr (or_false (starts_with g (c ∷ text)) _ h).1

  has_form-replace_from :
      (f : List ℕ) (skip : ℕ) (text : List ℕ)
      → Gone f text
      → has_form g (replace_from f skip text) ≡ false
  unfolding replace_from
  has_form-replace_from f skip [] h = not_empty g outside
  has_form-replace_from f (suc skip) (c ∷ text) h =
      has_form-replace_from f skip text (Gone-later f c text h)
  has_form-replace_from f zero (c ∷ text) h =
      let replaced = has_form-replace_from f (length f - 1) text (Gone-later f c text h) in
      let kept = has_form-replace_from f zero text (Gone-later f c text h) in
      if_rule (λ (out : List ℕ). has_form g out ≡ false) (starts_with f (c ∷ text))
        (λ s. has_form-replaced f _ replaced)
        (λ s. both_false (starts_with-kept g f c text no_star (Gone-here f c text h s)) kept)

  pub has_form-replace_all :
      (forms : List (List ℕ)) (msg : List ℕ)
      → (elem g forms ≡ true) ⊎ (has_form g msg ≡ false)
      → has_form g (replace_all forms msg) ≡ false
  unfolding replace_all Gone
  has_form-replace_all [] msg (inl h) = absurd (ground (arith, h))
  has_form-replace_all [] msg (inr h) = h
  has_form-replace_all (f ∷ forms) msg (inr h) =
      has_form-replace_all forms (replace_from f 0 msg)
        (inr (has_form-replace_from f 0 msg (inr h)))
  has_form-replace_all (f ∷ forms) msg (inl h) =
      has_form-replace_all forms (replace_from f 0 msg) (elim (Bool-cases (same_form g f)) [
        | inl same ↦ inr (has_form-replace_from f 0 msg (inl (sym (same_form-eq g f same))))
        | inr other ↦ inl (or_second _ other h)
      ])
