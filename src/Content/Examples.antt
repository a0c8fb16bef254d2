-- ===== src/Content/Examples.antt =====
-- Tests and witnesses for the catalogue's client.
use delonghi_ha.Prelude.{ℕ, suc, [], ◌∷◌, ◌++◌, replicate, none, ◌≡◌, refl, arith}
use delonghi_ha.Content.{
  ecam_prefix, pattern_candidates, match_ecam, all_digits, begins, same_text, is_listed, prefixes,
  unique, fetched, fetch_error, fetch_pattern, more_pages,
}
use delonghi_ha.Content.Laws.{serve, GivesAll, fetch-GivesAll}

-- "ECAM63099": ECAM63099, ECAM6309, ECAM630, ECAM63.
candidates_test :
    pattern_candidates (ecam_prefix ++ (0x36 ∷ 0x33 ∷ 0x30 ∷ 0x39 ∷ 0x39 ∷ []))
    ≡ (ecam_prefix ++ (0x36 ∷ 0x33 ∷ 0x30 ∷ 0x39 ∷ 0x39 ∷ []))
      ∷ (ecam_prefix ++ (0x36 ∷ 0x33 ∷ 0x30 ∷ 0x39 ∷ []))
      ∷ (ecam_prefix ++ (0x36 ∷ 0x33 ∷ 0x30 ∷ []))
      ∷ (ecam_prefix ++ (0x36 ∷ 0x33 ∷ []))
      ∷ []
unfolding pattern_candidates match_ecam all_digits begins prefixes unique is_listed same_text
candidates_test = refl

-- 100 entries make a second request, which gives an empty page.
full_page_test : fetch_pattern {E = ℕ} (serve 100 (replicate 100 7)) 2 ≡ fetched (replicate 100 7)
unfolding fetch_pattern more_pages
full_page_test = refl

-- A failure of a page is an error, not an empty catalogue.
failure_test : fetch_pattern {E = ℕ} (λ skip. none) 5 ≡ fetch_error
unfolding fetch_pattern
failure_test = refl

fetch-GivesAll_example : GivesAll suc 2 (5 ∷ 6 ∷ 7 ∷ [])
fetch-GivesAll_example = fetch-GivesAll suc 2 (5 ∷ 6 ∷ 7 ∷ []) (omega arith)
