-- ===== src/Daedalus/Redact.antt =====
-- The scrubbing of texts: custom_components/delonghi_daedalus/redact.py. A text is the list of its code
-- points; the scanner for addresses is that of Redact, which the file repeats.
pub mod Replace
pub mod Laws
mod Examples
use delonghi_ha.Prelude.{
  ℕ, zero, suc, ◌-◌, List, [], ◌∷◌, ◌++◌, Bool, true, false, not, ◌&&◌, ◌||◌, ◌==◌, ltb, leb,
  length, drop, Option, none, some, if◌then◌else◌,
}
use delonghi_ha.Redact.{stars, mask_emails, truncate}

-- `_REDACTED_HOST`: "**REDACTED-HOST**".
abbrev pub redacted_host : List ℕ
redacted_host =
    0x2A ∷ 0x2A ∷ 0x52 ∷ 0x45 ∷ 0x44 ∷ 0x41 ∷ 0x43 ∷ 0x54 ∷ 0x45 ∷ 0x44 ∷ 0x2D ∷ 0x48 ∷ 0x4F ∷ 0x53
    ∷ 0x54 ∷ 0x2A ∷ 0x2A ∷ []

-- `text.startswith(form)`, `form in text` and `text == form`.
abbrev pub starts_with : List ℕ → List ℕ → Bool
starts_with [] text = true
starts_with (d ∷ form) [] = false
starts_with (d ∷ form) (c ∷ text) = (d == c) && starts_with form text

abbrev pub has_form : List ℕ → List ℕ → Bool
has_form form [] = starts_with form []
has_form form (c ∷ text) = starts_with form (c ∷ text) || has_form form text

abbrev pub same_form : List ℕ → List ℕ → Bool
same_form [] [] = true
same_form [] (c ∷ text) = false
same_form (d ∷ form) [] = false
same_form (d ∷ form) (c ∷ text) = (d == c) && same_form form text

-- `msg.replace(form, _REDACTED_HOST)` for a form that is not empty, after `skip` more characters of
-- the last occurrence.
unfoldable pub replace_from : List ℕ → ℕ → List ℕ → List ℕ
replace_from form skip [] = []
replace_from form (suc skip) (c ∷ text) = replace_from form skip text
replace_from form zero (c ∷ text) =
    let replaced = redacted_host ++ replace_from form (length form - 1) text in
    let kept = c ∷ replace_from form zero text in
    if starts_with form (c ∷ text) then replaced else kept

-- A set, and a dictionary's keys, as the list of what was added.
abbrev pub elem : List ℕ → List (List ℕ) → Bool
elem form [] = false
elem form (x ∷ forms) = same_form form x || elem form forms

unfoldable pub add_form : List ℕ → List (List ℕ) → List (List ℕ)
add_form form forms = if elem form forms then forms else form ∷ forms

unfoldable pub add_forms : List (List ℕ) → List (List ℕ) → List (List ℕ)
add_forms [] forms = forms
add_forms (x ∷ more) forms = add_form x (add_forms more forms)

-- `sorted(forms, key=len, reverse=True)`
unfoldable pub insert_form : List ℕ → List (List ℕ) → List (List ℕ)
insert_form form [] = form ∷ []
insert_form form (x ∷ forms) =
    let later = x ∷ insert_form form forms in
    if leb (length x) (length form) then form ∷ x ∷ forms else later

unfoldable pub sort_forms : List (List ℕ) → List (List ℕ)
sort_forms [] = []
sort_forms (x ∷ forms) = insert_form x (sort_forms forms)

unfoldable pub replace_all : List (List ℕ) → List ℕ → List ℕ
replace_all [] msg = msg
replace_all (form ∷ forms) msg = replace_all forms (replace_from form 0 msg)

-- `mask_serial`
unfoldable pub mask_serial : List ℕ → List ℕ
mask_serial text =
    if leb (length text) 4 then stars 4 else stars (length text - 4) ++ drop (length text - 4) text

-- `text.split("%", 1)[0]`
unfoldable pub before_zone : List ℕ → List ℕ
before_zone [] = []
before_zone (c ∷ text) = let more = before_zone text in if c == 0x25 then [] else c ∷ more

-- `[text]`
abbrev pub bracketed : List ℕ → List ℕ
bracketed text = 0x5B ∷ (text ++ (0x5D ∷ []))

-- `strip` is `str.strip`, and `is_ip` whether `ipaddress.ip_address` takes a text.
module _ (strip : List ℕ → List ℕ) (is_ip : List ℕ → Bool) where
  -- `form not in ("", "[]")`
  abbrev pub keep_form : List ℕ → List (List ℕ) → List (List ℕ)
  keep_form form forms =
      if same_form form [] || same_form form (bracketed []) then forms else add_form form forms

  unfoldable pub forms_of : List ℕ → List (List ℕ)
  forms_of [] = []
  forms_of (c ∷ rest) =
      let text = c ∷ rest in
      let base = before_zone text in
      if is_ip base
      then keep_form text
          (keep_form (bracketed text) (keep_form base (keep_form (bracketed base) [])))
      else []

  unfoldable pub host_text_forms : Option (List ℕ) → List (List ℕ)
  host_text_forms none = []
  host_text_forms (some host) = forms_of (strip host)

  -- `register_lan_host`: the set `_KNOWN_HOST_FORMS` after it.
  unfoldable pub register_lan_host : Option (List ℕ) → List (List ℕ) → List (List ℕ)
  register_lan_host host known = add_forms (host_text_forms host) known

  unfoldable pub scrub_hosts : List (List ℕ) → List ℕ → Option (List ℕ) → List ℕ
  scrub_hosts known msg host = replace_all (sort_forms (add_forms (host_text_forms host) known)) msg

  -- `sanitize_text`; `patterns` are the substitutions of the four expressions, and `alnum` is
  -- `str.isalnum` of one character.
  unfoldable pub sanitize_text :
      (ℕ → Bool) → (List ℕ → List ℕ) → List (List ℕ) → List ℕ → Option (List ℕ) → List ℕ
  sanitize_text alnum patterns known text host =
      mask_emails alnum (scrub_hosts known (patterns (truncate text)) host)
