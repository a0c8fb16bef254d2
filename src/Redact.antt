-- ===== src/Redact.antt =====
-- The scrubbing of log lines: `_mask_email`, `_mask_emails` and `sanitize`
-- (custom_components/delonghi_coffee/logger.py). A text is the list of its code points.
pub mod Spec
pub mod Scan
pub mod Place
pub mod Round
pub mod Unique
pub mod Laws
mod Examples
use delonghi_ha.Prelude.{
  ℕ, zero, suc, ◌-◌, List, [], ◌∷◌, ◌++◌, Bool, true, false, not, ◌&&◌, ◌||◌, ◌==◌, ltb, leb,
  length, take, Option, none, some, if◌then◌else◌,
}

-- `@`, `.` and `*`.
abbrev pub at_sign : ℕ
at_sign = 0x40

abbrev pub dot : ℕ
dot = 0x2E

abbrev pub stars : ℕ → List ℕ
stars zero = []
stars (suc n) = 0x2A ∷ stars n

-- `partition("@")` and `find("@")`: what is before the first `@` and after it.
abbrev pub with_first : ℕ → Option (List ℕ × List ℕ) → Option (List ℕ × List ℕ)
with_first c none = none
with_first c (some (before, after)) = some (c ∷ before, after)

unfoldable pub partition : List ℕ → Option (List ℕ × List ℕ)
partition [] = none
partition (c ∷ text) =
    let more = partition text in if c == at_sign then some ([], text) else with_first c more

-- The last character of `c ∷ text`.
unfoldable pub last_of : ℕ → List ℕ → ℕ
last_of c [] = c
last_of c (d ∷ text) = last_of d text

unfoldable pub mask_local : List ℕ → List ℕ
mask_local [] = []
mask_local (c ∷ local) =
    if leb (length (c ∷ local)) 2
    then stars (length (c ∷ local))
    else c ∷ (stars 3 ++ (last_of c local ∷ []))

-- The text after the last dot, and the dots before it: `domain.split(".")`.
unfoldable pub add_to_first : ℕ → List (List ℕ) → List (List ℕ)
add_to_first c [] = (c ∷ []) ∷ []
add_to_first c (label ∷ labels) = (c ∷ label) ∷ labels

unfoldable pub split_dots : List ℕ → List (List ℕ)
split_dots [] = [] ∷ []
split_dots (c ∷ text) =
    let labels = split_dots text in if c == dot then [] ∷ labels else add_to_first c labels

-- All labels but the last become "***".
unfoldable pub mask_labels : List (List ℕ) → List ℕ
mask_labels [] = []
mask_labels (label ∷ []) = label
mask_labels (label ∷ next ∷ labels) = stars 3 ++ (dot ∷ mask_labels (next ∷ labels))

-- `_mask_email`; a text without `@` is "***", and an empty one stays.
unfoldable pub mask_email : List ℕ → List ℕ
mask_email text = masked (partition text)
  where
    masked : Option (List ℕ × List ℕ) → List ℕ
    masked (some (local, domain)) = mask_local local ++ (at_sign ∷ mask_labels (split_dots domain))
    masked none = unsplit text
      where
        unsplit : List ℕ → List ℕ
        unsplit [] = []
        unsplit (c ∷ rest) = stars 3

-- "...[TRUNCATED]"
abbrev pub truncated : List ℕ
truncated =
    0x2E ∷ 0x2E ∷ 0x2E ∷ 0x5B ∷ 0x54 ∷ 0x52 ∷ 0x55 ∷ 0x4E ∷ 0x43 ∷ 0x41 ∷ 0x54 ∷ 0x45 ∷ 0x44 ∷ 0x5D
    ∷ []

abbrev pub max_len : ℕ
max_len = 65536

unfoldable pub truncate : List ℕ → List ℕ
truncate msg =
    if ltb max_len (length msg) then take (max_len - length truncated) msg ++ truncated else msg

-- What a round appended, and the rest of the loop.
abbrev pub and_then : (List ℕ → List ℕ) → List ℕ → Option (List ℕ × List ℕ) → List ℕ
and_then loop text none = text
and_then loop text (some (part, rest)) = part ++ loop rest

-- `alnum` is `str.isalnum` of one character.
module _ (alnum : ℕ → Bool) where
  abbrev pub is_local_char : ℕ → Bool
  is_local_char c = alnum c || (c == 0x5F || (c == dot || (c == 0x2B || c == 0x2D)))

  abbrev pub is_domain_char : ℕ → Bool
  is_domain_char c = alnum c || (c == 0x5F || c == 0x2D)

  -- The scan backwards: the rest, and the longest end of the text that is local characters.
  unfoldable pub extend : ℕ → List ℕ × List ℕ → List ℕ × List ℕ
  extend c ([], local) = if is_local_char c then ([], c ∷ local) else (c ∷ [], local)
  extend c (b ∷ raw, local) = (c ∷ b ∷ raw, local)

  unfoldable pub split_local : List ℕ → List ℕ × List ℕ
  split_local [] = ([], [])
  split_local (c ∷ text) = extend c (split_local text)

  unfoldable pub starts_domain : List ℕ → Bool
  starts_domain [] = false
  starts_domain (c ∷ text) = is_domain_char c

  -- The scan forwards: labels with a dot between them, and the rest.
  unfoldable pub scan_domain : List ℕ → List ℕ × List ℕ
  scan_domain [] = ([], [])
  scan_domain (c ∷ text) =
      let more = scan_domain text in
      if is_domain_char c || (c == dot && starts_domain text)
      then (c ∷ more.0, more.1)
      else ([], c ∷ text)

  abbrev pub is_address : List ℕ → List ℕ → Bool
  is_address [] after = false
  is_address (c ∷ local) after = starts_domain after

  -- One round: what is appended for the text up to the new `pos`, and the text from there on. It
  -- ends when there is no `@`.
  unfoldable pub address_part : List ℕ × List ℕ → List ℕ × List ℕ → List ℕ × List ℕ
  address_part (raw, local) (domain, rest) = (raw ++ mask_email (local ++ (at_sign ∷ domain)), rest)

  unfoldable pub next_part : Option (List ℕ × List ℕ) → Option (List ℕ × List ℕ)
  next_part none = none
  next_part (some (before, after)) =
      let split = split_local before in
      some (
        if is_address split.1 after
        then address_part split (scan_domain after)
        else (before ++ (at_sign ∷ []), after))

  -- The loop, on the text from `pos` on.
  unfoldable pub mask_from : ℕ → List ℕ → List ℕ
  mask_from zero text = text
  mask_from (suc fuel) text = and_then (mask_from fuel) text (next_part (partition text))

  unfoldable pub mask_emails : List ℕ → List ℕ
  mask_emails msg = mask_from (length msg) msg

  -- `sanitize`; `patterns` is the loop over the regular expressions.
  unfoldable pub sanitize : (List ℕ → List ℕ) → List ℕ → List ℕ
  sanitize patterns msg = mask_emails (patterns (truncate msg))
