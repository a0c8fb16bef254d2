-- ===== src/Redact/Examples.antt =====
-- Runs of the scanner.
use delonghi_ha.Prelude.{
  ◌≡◌, ◌↔◌, refl, ℕ, List, [], ◌∷◌, ◌++◌, Bool, ltb, leb, ◌&&◌, ◌||◌, length, min,
}
use delonghi_ha.Redact.{
  at_sign, dot, stars, partition, last_of, mask_local, add_to_first, split_dots, mask_labels,
  mask_email, extend, split_local, starts_domain, scan_domain, address_part, next_part, mask_from,
  mask_emails, max_len, truncate, sanitize,
}
use delonghi_ha.Redact.Spec.{Sub}
use delonghi_ha.Redact.Laws.{sanitize-Sub}

abbrev ascii : ℕ → Bool
ascii c = (leb 0x30 c && ltb c 0x3A) || ((leb 0x41 c && ltb c 0x5B) || (leb 0x61 c && ltb c 0x7B))

-- "a @ joe@m.fr."
abbrev message : List ℕ
message =
    0x61 ∷ 0x20 ∷ at_sign ∷ 0x20 ∷ 0x6A ∷ 0x6F ∷ 0x65 ∷ at_sign ∷ 0x6D ∷ dot ∷ 0x66 ∷ 0x72 ∷ dot
    ∷ []

sanitize-Sub_example :
    (Sub ascii (truncate message) message ↔ (message ≡ sanitize ascii (λ text. text) message))
    × (length (truncate message) ≡ min (length message) max_len)
sanitize-Sub_example = sanitize-Sub ascii (λ text. text) message message refl

-- "a @ j***e@***.fr."
masked_message :
    mask_emails ascii message
    ≡ 0x61
      ∷ 0x20
      ∷ at_sign
      ∷ 0x20
      ∷ 0x6A
      ∷ (stars 3 ++ (0x65 ∷ at_sign ∷ (stars 3 ++ (dot ∷ 0x66 ∷ 0x72 ∷ dot ∷ []))))
unfolding partition last_of mask_local add_to_first split_dots mask_labels mask_email extend
    split_local starts_domain scan_domain address_part next_part mask_from mask_emails
masked_message = refl

-- "joe@m" becomes "j***e@m", and that "j****@m": the mask of an address without a dot is one again.
masked_twice :
    mask_emails ascii (mask_emails ascii (0x6A ∷ 0x6F ∷ 0x65 ∷ at_sign ∷ 0x6D ∷ []))
    ≡ 0x6A ∷ (stars 4 ++ (at_sign ∷ 0x6D ∷ []))
unfolding partition last_of mask_local add_to_first split_dots mask_labels mask_email extend
    split_local starts_domain scan_domain address_part next_part mask_from mask_emails
masked_twice = refl
