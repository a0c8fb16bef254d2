-- ===== src/Daedalus/Redact/Laws.antt =====
-- What scrubbing the hosts (redact.py) leaves of them.
use delonghi_ha.Prelude.{
  or_false, both_false, or_second, or_left, or_right, or_cases, ◌≡◌, refl, sym, ℕ, List, [], ◌∷◌,
  Bool, true, false, ◌&&◌, ◌||◌, ◌==◌, length, Option, if_rule, Bool-cases, inl, inr, arith, leb,
}
use delonghi_ha.Daedalus.Redact.{
  redacted_host, has_form, same_form, elem, add_form, add_forms, insert_form, sort_forms,
  host_text_forms, register_lan_host, scrub_hosts,
}
use delonghi_ha.Daedalus.Redact.Replace.{has_star, same_form-eq, has_form-replace_all}
use mathlib.Core.Path.{subst}

module _ (g : List ℕ) where
  elem-add_form :
      (f : List ℕ) (forms : List (List ℕ))
      → (same_form g f || elem g forms) ≡ true
      → elem g (add_form f forms) ≡ true
  unfolding add_form
  elem-add_form f forms h =
      if_rule (λ (out : List (List ℕ)). elem g out ≡ true) (elem f forms)
        (λ known. elim (or_cases (same_form g f) (elem g forms) h) [
          | inl same ↦
              subst (λ (x : List ℕ). elem x forms ≡ true) (sym (same_form-eq g f same)) known
          | inr old ↦ old
        ])
        (λ fresh. h)

  elem-add_forms :
      (more forms : List (List ℕ))
      → (elem g more || elem g forms) ≡ true
      → elem g (add_forms more forms) ≡ true
  unfolding add_forms
  elem-add_forms [] forms h = h
  elem-add_forms (x ∷ more) forms h =
      elem-add_form x (add_forms more forms) (elim (Bool-cases (same_form g x)) [
        | inl same ↦ or_left _ same
        | inr other ↦
            or_right _ (
              elem-add_forms more forms (rest (same_form g x) (elem g more) (elem g forms) other h))
      ])
    where
      rest : (a b c : Bool) → a ≡ false → ((a || b) || c) ≡ true → (b || c) ≡ true
      rest true b c k e = absurd (ground (arith, k))
      rest false b c k e = e

  elem-insert_form :
      (f : List ℕ) (forms : List (List ℕ))
      → (same_form g f || elem g forms) ≡ true
      → elem g (insert_form f forms) ≡ true
  unfolding insert_form
  elem-insert_form f [] h = h
  elem-insert_form f (x ∷ forms) h =
      let later = elem-insert_form f forms in
      if_rule (λ (out : List (List ℕ)). elem g out ≡ true) (leb (length x) (length f)) (λ long. h)
        (λ short. elim (Bool-cases (same_form g x)) [
          | inl same ↦ or_left _ same
          | inr other ↦ or_right _ (
              later (elim (or_cases (same_form g f) _ h) [
                | inl here ↦ or_left _ here
                | inr there ↦ or_right _ (or_second _ other there)
              ]))
        ])

  elem-sort_forms : (forms : List (List ℕ)) → elem g forms ≡ true → elem g (sort_forms forms) ≡ true
  unfolding sort_forms
  elem-sort_forms [] h = h
  elem-sort_forms (x ∷ forms) h =
      elem-insert_form x (sort_forms forms) (elim (or_cases (same_form g x) _ h) [
        | inl same ↦ or_left _ same
        | inr old ↦ or_right _ (elem-sort_forms forms old)
      ])

-- Take a form of a host that was registered, of one known before, or of the call's own. If it
-- holds no `*` and is no part of "**REDACTED-HOST**", it is nowhere in the text that comes out,
-- whatever the other forms are and however they overlap.
pub scrub_hosts-absent :
    (strip : List ℕ → List ℕ) (is_ip : List ℕ → Bool) (known : List (List ℕ))
    (registered host : Option (List ℕ)) (msg g : List ℕ)
    → (elem g (host_text_forms strip is_ip host)
        || (elem g (host_text_forms strip is_ip registered) || elem g known))
      ≡ true
    → has_form (0x2A ∷ []) g ≡ false
    → has_form g redacted_host ≡ false
    → has_form g (scrub_hosts strip is_ip (register_lan_host strip is_ip registered known) msg host)
      ≡ false
unfolding scrub_hosts register_lan_host
scrub_hosts-absent strip is_ip known registered host msg g form no_star outside =
    has_form-replace_all g (has_no_star g no_star) outside _ msg (
      inl (
        elem-sort_forms g _ (
          elem-add_forms g (host_text_forms strip is_ip host) _
            (elim (or_cases (elem g (host_text_forms strip is_ip host)) _ form) [
              | inl own ↦ or_left _ own
              | inr before ↦
                  or_right _
                    (elem-add_forms g (host_text_forms strip is_ip registered) known before)
            ]))))
  where
    has_no_star : (text : List ℕ) → has_form (0x2A ∷ []) text ≡ false → has_star text ≡ false
    has_no_star [] h = refl
    has_no_star (c ∷ text) h =
        let parts = or_false ((0x2A == c) && true) _ h in
        both_false (and_left (0x2A == c) parts.0) (has_no_star text parts.1)
      where
        and_left : (a : Bool) → (a && true) ≡ false → a ≡ false
        and_left true k = k
        and_left false k = k
