-- ===== src/Content.antt =====
-- The client of the ContentStack catalogue: the patterns that are tried for a model, and the pages of
-- entries (custom_components/delonghi_coffee/contentstack.py). Texts are lists of code points.
pub mod Laws
mod Examples
use delonghi_ha.Prelude.{
  ℕ, zero, suc, ◌+◌, ◌-◌, min, List, [], ◌∷◌, ◌++◌, map, length, take, drop, Bool, true, false, not,
  ◌&&◌, ◌||◌, ◌==◌, leb, ltb, Option, none, some, if◌then◌else◌,
}

-- "ECAM", and the two families that are indexed: _SUPPORTED_FAMILIES.
abbrev pub ecam_prefix : List ℕ
ecam_prefix = 0x45 ∷ 0x43 ∷ 0x41 ∷ 0x4D ∷ []

abbrev pub supported_families : List (List ℕ)
supported_families = (ecam_prefix ++ (0x34 ∷ 0x37 ∷ [])) ∷ (ecam_prefix ++ (0x36 ∷ 0x33 ∷ [])) ∷ []

unfoldable pub same_text : List ℕ → List ℕ → Bool
same_text [] [] = true
same_text [] (d ∷ other) = false
same_text (c ∷ text) [] = false
same_text (c ∷ text) (d ∷ other) = c == d && same_text text other

unfoldable pub is_listed : List ℕ → List (List ℕ) → Bool
is_listed text [] = false
is_listed text (t ∷ seen) = same_text text t || is_listed text seen

-- `s.startswith(family)`, and the `any` over the families.
unfoldable pub begins : List ℕ → List ℕ → Bool
begins [] text = true
begins (f ∷ family) [] = false
begins (f ∷ family) (c ∷ text) = f == c && begins family text

unfoldable pub any_family : List (List ℕ) → List ℕ → Bool
any_family [] text = false
any_family (f ∷ families) text = begins f text || any_family families text

-- `is_family_supported`, of a text in capitals.
unfoldable pub is_family_supported : List ℕ → Bool
is_family_supported text = any_family supported_families text

unfoldable pub all_digits : List ℕ → Bool
all_digits [] = true
all_digits (c ∷ text) = (leb 0x30 c && leb c 0x39) && all_digits text

-- `re.fullmatch(r"(ECAM)(\d+)", ...)` on ASCII texts: the digits.
unfoldable pub match_ecam : List ℕ → Option (List ℕ)
match_ecam text = digits_after (begins ecam_prefix text) (drop 4 text)
  where
    digits_after : Bool → List ℕ → Option (List ℕ)
    digits_after false rest = none
    digits_after true [] = none
    digits_after true (c ∷ rest) = if all_digits (c ∷ rest) then some (c ∷ rest) else none

-- `[f"{prefix}{digits[:n]}" for n in range(len(digits), stop - 1, -1)]`, for n from stop + k down.
unfoldable pub prefixes : List ℕ → ℕ → ℕ → List (List ℕ)
prefixes digits stop zero = (ecam_prefix ++ take stop digits) ∷ []
prefixes digits stop (suc k) = (ecam_prefix ++ take (stop + suc k) digits) ∷ prefixes digits stop k

-- The loop with `seen`.
unfoldable pub unique : List (List ℕ) → List (List ℕ) → List (List ℕ)
unique seen [] = []
unique seen (c ∷ rest) = elim (is_listed c seen) [
  | true ↦ unique seen rest
  | false ↦ c ∷ unique (c ∷ seen) rest
]

-- `_iter_pattern_candidates`, of a text in capitals.
unfoldable pub pattern_candidates : List ℕ → List (List ℕ)
pattern_candidates text = from_match (match_ecam text)
  where
    from_match : Option (List ℕ) → List (List ℕ)
    from_match none = if same_text text [] then [] else text ∷ []
    from_match (some digits) =
        let stop = min 2 (length digits) in unique [] (prefixes digits stop (length digits - stop))

-- What a fetch gives: the entries, or ContentStackFetchError. `out_of_fuel` stands for a loop that is
-- not over yet.
pub data Fetched (E : Type 0) : Type 0 where
  fetched : List E → Fetched E
  fetch_error out_of_fuel : Fetched E

abbrev pub page_size : ℕ
page_size = 100

-- `_cs_get` returns None on a failure.
abbrev pub with_page : {E F : Type 0} → Option (List E) → (List E → Fetched F) → Fetched F
with_page none next = fetch_error
with_page (some page) next = next page

module _ {E : Type 0} (get : ℕ → Option (List E)) where
  -- `while len(page) == 100`
  unfoldable pub more_pages : ℕ → ℕ → List E → List E → Fetched E
  more_pages zero skip page entries =
      if length page == page_size then out_of_fuel else fetched entries
  more_pages (suc fuel) skip page entries =
      if length page == page_size
      then with_page (get skip)
          (λ more. more_pages fuel (skip + length more) more (entries ++ more))
      else fetched entries

  -- The entries of a pattern.
  unfoldable pub fetch_pattern : ℕ → Fetched E
  fetch_pattern fuel = with_page (get 0) (λ page. more_pages fuel (length page) page page)

-- The loop over the patterns: the first that is supported and has entries.
unfoldable pub entries_or : {E : Type 0} → Fetched E → Fetched E → Fetched E
entries_or fetch_error rest = fetch_error
entries_or out_of_fuel rest = out_of_fuel
entries_or (fetched []) rest = rest
entries_or (fetched (e ∷ entries)) rest = fetched (e ∷ entries)

unfoldable pub search_patterns : {E : Type 0} → (List ℕ → Fetched E) → List (List ℕ) → Fetched E
search_patterns find [] = fetched []
search_patterns find (p ∷ patterns) =
    let rest = search_patterns find patterns in
    if is_family_supported p then entries_or (find p) rest else rest

-- `fetch_coffee_beans`, with its conversion of an entry.
abbrev pub is_done : {E : Type 0} → List E → Bool
is_done [] = true
is_done (e ∷ entries) = false

module _ {E B : Type 0} (bean : E → B) (get : ℕ → Option (List E)) (limit : ℕ) where
  unfoldable pub bean_pages : ℕ → ℕ → List B → Fetched B
  bean_pages zero skip beans = out_of_fuel
  bean_pages (suc fuel) skip beans = with_page (get skip) (λ entries.
      if is_done entries
      then fetched beans
      else if ltb (length entries) limit
      then fetched (beans ++ map bean entries)
      else bean_pages fuel (skip + limit) (beans ++ map bean entries))
