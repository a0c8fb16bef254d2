-- ===== src/Daedalus/Redact/Examples.antt =====
-- Runs of the scrubbing of hosts.
use delonghi_ha.Prelude.{◌≡◌, refl, ℕ, List, [], ◌∷◌, ◌++◌, Bool, true, false, ◌||◌, some, none}
use delonghi_ha.Daedalus.Redact.{
  redacted_host, has_form, elem, bracketed, replace_from, replace_all, add_form, add_forms,
  insert_form, sort_forms, mask_serial, before_zone, forms_of, host_text_forms, register_lan_host,
  scrub_hosts,
}
use delonghi_ha.Daedalus.Redact.Laws.{scrub_hosts-absent}

-- Texts with a colon are addresses; "::1" and "::1%e" are registered hosts.
abbrev has_colon : List ℕ → Bool
has_colon text = has_form (0x3A ∷ []) text

abbrev loopback : List ℕ
loopback = 0x3A ∷ 0x3A ∷ 0x31 ∷ []

abbrev zoned : List ℕ
zoned = loopback ++ (0x25 ∷ 0x65 ∷ [])

known :
    (elem (bracketed loopback) (host_text_forms (λ text. text) has_colon none)
      || (elem (bracketed loopback) (host_text_forms (λ text. text) has_colon (some zoned))
          || elem (bracketed loopback) []))
    ≡ true
unfolding host_text_forms forms_of before_zone add_form
known = refl

scrub_hosts-absent_example :
    has_form (bracketed loopback) (
      scrub_hosts
        (λ text. text)
        has_colon
        (register_lan_host (λ text. text) has_colon (some zoned) [])
        (0x20 ∷ (bracketed loopback ++ zoned))
        none)
    ≡ false
scrub_hosts-absent_example =
    scrub_hosts-absent (λ text. text) has_colon [] (some zoned) none
      (0x20 ∷ (bracketed loopback ++ zoned)) (bracketed loopback) known refl refl

-- " [::1]::1%e" becomes " **REDACTED-HOST****REDACTED-HOST**": the longest form goes first.
scrubbed :
    scrub_hosts
      (λ text. text)
      has_colon
      (register_lan_host (λ text. text) has_colon (some zoned) [])
      (0x20 ∷ (bracketed loopback ++ zoned))
      none
    ≡ 0x20 ∷ (redacted_host ++ redacted_host)
unfolding replace_from replace_all add_form add_forms insert_form sort_forms before_zone forms_of
    host_text_forms register_lan_host scrub_hosts
scrubbed = refl

-- "123456" as "**3456".
masked_serial :
    mask_serial (0x31 ∷ 0x32 ∷ 0x33 ∷ 0x34 ∷ 0x35 ∷ 0x36 ∷ [])
    ≡ 0x2A ∷ 0x2A ∷ 0x33 ∷ 0x34 ∷ 0x35 ∷ 0x36 ∷ []
unfolding mask_serial
masked_serial = refl
