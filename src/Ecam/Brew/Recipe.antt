-- ===== src/Ecam/Brew/Recipe.antt =====
-- The conversion of a stored recipe: which parameters of the recipe the command carries, and that it
-- is a frame whatever the recipe is.
use delonghi_ha.Prelude.{
  ℕ, zero, suc, ◌-◌, ◌<◌, ◌≤◌, List, [], ◌∷◌, ◌++◌, Bool, true, false, ◌==◌, ◌||◌, ltb, some, ◌≡◌,
  ◌≢◌, ◌⊎◌, refl, ap, ◌∙◌, arith, All, All-append, length, length-append, take, drop, get_elem?,
  Bool-cases, inl, inr, take-append_length,
}
use delonghi_ha.Prelude.Int.{ℤ, pos, negsuc, IsByte}
use delonghi_ha.Prelude.Raise.{ok, >>=-ok}
use delonghi_ha.Ecam.Frame.{IsFrame}
use delonghi_ha.Ecam.Params.{slice, copy_params, find_accessory, get_recipe_accessory}
use delonghi_ha.Ecam.Params.Laws.{
  Param, small, big, id, IsSized, encode, without, accessory, copy_params-encode,
  copy_params-IsByte, find_accessory-encode,
}
use delonghi_ha.Ecam.Brew.{excluded, closing, at, convert, recipe_to_brew_command}
use delonghi_ha.Ecam.Brew.Laws.{brew_bytes, brew_frame_fits, brew_frame-IsFrame}

-- The parameters that every brew command ends with: IDX_LEN, for a cold drink ICED (and INTENSITY),
-- and RINSE.
abbrev pub closing_params : Bool → Bool → ℕ → List Param
closing_params true is_cold_brew intensity = small 27 1 ∷ small 31 0 ∷ small 39 1 ∷ []
closing_params false true intensity = small 27 1 ∷ small 31 3 ∷ small 38 intensity ∷ small 39 1 ∷ []
closing_params false false intensity = small 27 1 ∷ small 39 1 ∷ []

-- The ids of the parameters that are left out: VISIBLE and IDX_LEN, and for a cold drink the three
-- quantities.
abbrev pub hidden_ids : Bool → Bool → List ℕ
hidden_ids true is_cold_brew = 1 ∷ 9 ∷ 15 ∷ 25 ∷ 27 ∷ []
hidden_ids false true = 1 ∷ 9 ∷ 15 ∷ 25 ∷ 27 ∷ []
hidden_ids false false = 25 ∷ 27 ∷ []

abbrev pub member : ℕ → List ℕ → Bool
member pid [] = false
member pid (n ∷ rest) = pid == n || member pid rest

abbrev pub hidden : Bool → Bool → ℕ → Bool
hidden is_iced is_cold_brew pid = member pid (hidden_ids is_iced is_cold_brew)

excluded-hidden :
    (is_iced is_cold_brew : Bool) (pid : ℕ)
    → excluded is_iced is_cold_brew pid ≡ hidden is_iced is_cold_brew pid
excluded-hidden true cold pid = ground arith
excluded-hidden false true pid = ground arith
excluded-hidden false false pid = ground arith

without-same :
    (f g : ℕ → Bool) (ps : List Param) → ((pid : ℕ) → f pid ≡ g pid) → without f ps ≡ without g ps
without-same f g [] h = refl
without-same f g (p ∷ ps) h = rw (h (id p), without-same f g ps h) refl

copied-encode :
    (is_iced is_cold_brew : Bool) (ps : List Param)
    → All IsSized ps
    → copy_params (excluded is_iced is_cold_brew) (encode ps)
      ≡ encode (without (hidden is_iced is_cold_brew) ps)
copied-encode iced cold ps sized =
    copy_params-encode (excluded iced cold) ps sized
    ∙ ap encode
        (without-same (excluded iced cold) (hidden iced cold) ps (excluded-hidden iced cold))

encode-append : (ps qs : List Param) → encode (ps ++ qs) ≡ encode ps ++ encode qs
encode-append [] qs = refl
encode-append (small pid v ∷ ps) qs = ap (λ t. pid ∷ v ∷ t) (encode-append ps qs)
encode-append (big pid hi lo ∷ ps) qs = ap (λ t. pid ∷ hi ∷ lo ∷ t) (encode-append ps qs)

closing-encode :
    (is_iced is_cold_brew : Bool) (intensity : ℕ)
    → intensity < 256
    → closing is_iced is_cold_brew (pos intensity)
      ≡ ok (encode (closing_params is_iced is_cold_brew intensity))
unfolding closing
closing-encode true c intensity h = refl
closing-encode false true intensity h = ground arith
closing-encode false false intensity h = refl

-- A recipe as the machine stores it: six bytes of header, of which the last is the drink, the
-- parameters, and a checksum.
abbrev pub stored : ℕ → ℕ → ℕ → ℕ → ℕ → ℕ → List ℕ → ℕ → ℕ → List ℕ
stored h0 h1 h2 h3 h4 bev_id params c0 c1 =
    h0 ∷ h1 ∷ h2 ∷ h3 ∷ h4 ∷ bev_id ∷ (params ++ c0 ∷ c1 ∷ [])

slice-stored :
    (h0 h1 h2 h3 h4 bev_id : ℕ) (params : List ℕ) (c0 c1 : ℕ)
    → slice 6 2 (stored h0 h1 h2 h3 h4 bev_id params c0 c1) ≡ params
slice-stored h0 h1 h2 h3 h4 bev_id params c0 c1 =
    ap (λ n. take n (params ++ c0 ∷ c1 ∷ []))
      {x = length (stored h0 h1 h2 h3 h4 bev_id params c0 c1) - 2 - 6} {y = length params}
      (omega (arith, length-append {0} params (c0 ∷ c1 ∷ [])))
    ∙ take-append_length params (c0 ∷ c1 ∷ [])

-- The accessory that a stored recipe asks for is the value of its first ACCESSORIO parameter.
pub get_recipe_accessory-encode :
    (h0 h1 h2 h3 h4 bev_id : ℕ) (ps : List Param) (c0 c1 : ℕ)
    → All IsSized ps
    → get_recipe_accessory (stored h0 h1 h2 h3 h4 bev_id (encode ps) c0 c1) ≡ accessory ps
unfolding get_recipe_accessory
get_recipe_accessory-encode h0 h1 h2 h3 h4 bev_id ps c0 c1 sized =
    ap find_accessory (slice-stored h0 h1 h2 h3 h4 bev_id (encode ps) c0 c1)
    ∙ find_accessory-encode ps sized

ne-eq_false : {a b : ℕ} → a ≢ b → (a == b) ≡ false
ne-eq_false h = ground arith

-- A stored recipe that is no command already is converted to the command that carries, in order, its
-- parameters without VISIBLE and IDX_LEN (for an iced drink or a cold brew also without the three
-- quantities) and then the closing ones, if what it carries, the closing ones included, has at most 247
-- bytes, the profile is at most 63 and the intensity is a byte.
pub recipe_to_brew_command-encode :
    (h0 h1 h2 h3 h4 bev_id : ℕ) (ps : List Param) (c0 c1 : ℕ) (is_iced is_cold_brew : Bool)
    (intensity p : ℕ)
    → h0 ≢ 0x0D
    → bev_id < 256
    → All IsSized ps
    → intensity < 256
    → p < 64
    → length (
        encode (
          without (hidden is_iced is_cold_brew) ps
          ++ closing_params is_iced is_cold_brew intensity))
      ≤ 247
    → recipe_to_brew_command
        (stored h0 h1 h2 h3 h4 bev_id (encode ps) c0 c1)
        is_iced
        is_cold_brew
        (pos intensity)
        (pos p)
      ≡ ok (
          brew_bytes bev_id
            (encode (
              without (hidden is_iced is_cold_brew) ps
              ++ closing_params is_iced is_cold_brew intensity))
            p)
unfolding recipe_to_brew_command convert
recipe_to_brew_command-encode h0 h1 h2 h3 h4 bev_id ps c0 c1 iced cold intensity p h b sized i q l =
    rw
      (
        ne-eq_false h,
        closing-encode iced cold intensity i,
        slice-stored h0 h1 h2 h3 h4 bev_id (encode ps) c0 c1,
        copied-encode iced cold ps sized,
        ← encode-append (without (hidden iced cold) ps) (closing_params iced cold intensity),
      )
      (brew_frame_fits bev_id _ p b l q)

closing-IsByte :
    (is_iced is_cold_brew : Bool) (intensity : ℤ) (end : List ℕ)
    → closing is_iced is_cold_brew intensity ≡ ok end
    → All IsByte end
unfolding closing
closing-IsByte true cold intensity end e =
    let shown : 27 ∷ 1 ∷ 31 ∷ 0 ∷ 39 ∷ 1 ∷ [] ≡ end = cc in rw (← shown) (omega arith)
closing-IsByte false true (pos n) end e = elim (Bool-cases (ltb n 256)) [
  | inl fits ↦
      let shown : 27 ∷ 1 ∷ 31 ∷ 3 ∷ 38 ∷ n ∷ 39 ∷ 1 ∷ [] ≡ end = ground arith in
      let low : n < 256 = ground arith in rw (← shown) (omega arith)
  | inr wide ↦ absurd (ground arith)
]
closing-IsByte false true (negsuc n) end e = absurd (ground arith)
closing-IsByte false false intensity end e =
    let shown : 27 ∷ 1 ∷ 39 ∷ 1 ∷ [] ≡ end = cc in rw (← shown) (omega arith)

at-some : (xs : List ℕ) (i b : ℕ) → at xs i ≡ ok b → get_elem? xs i ≡ some b
at-some xs i b e = ground arith

get_elem?-IsByte : (xs : List ℕ) (i b : ℕ) → All IsByte xs → get_elem? xs i ≡ some b → b < 256
get_elem?-IsByte [] i b h e = cc
get_elem?-IsByte (x ∷ xs) zero b h e = let same : x ≡ b = cc in rw (← same) h.0
get_elem?-IsByte (x ∷ xs) (suc i) b h e = get_elem?-IsByte xs i b h.1 e

take-IsByte : (n : ℕ) (xs : List ℕ) → All IsByte xs → All IsByte (take n xs)
take-IsByte zero xs h = tt
take-IsByte (suc n) [] h = tt
take-IsByte (suc n) (x ∷ xs) h = (h.0, take-IsByte n xs h.1)

drop-IsByte : (n : ℕ) (xs : List ℕ) → All IsByte xs → All IsByte (drop n xs)
drop-IsByte zero xs h = h
drop-IsByte (suc n) [] h = tt
drop-IsByte (suc n) (x ∷ xs) h = drop-IsByte n xs h.1

convert-IsFrame :
    (recipe : List ℕ) (is_iced is_cold_brew : Bool) (intensity profile : ℤ) (cmd : List ℕ)
    → All IsByte recipe
    → convert recipe is_iced is_cold_brew intensity profile ≡ ok cmd
    → IsFrame cmd
unfolding convert
convert-IsFrame recipe iced cold intensity profile cmd bytes e =
    let copied = copy_params (excluded iced cold) (slice 6 2 recipe) in
    let (bev_id, e1, found) = >>=-ok _ (at recipe 5) e in
    let (end, e2, closed) = >>=-ok _ (closing iced cold intensity) e1 in
    brew_frame-IsFrame bev_id (copied ++ end) profile cmd
      (get_elem?-IsByte recipe 5 bev_id bytes (at-some recipe 5 bev_id found))
      (All-append IsByte copied end
        (copy_params-IsByte (excluded iced cold) (slice 6 2 recipe)
          (take-IsByte _ (drop 6 recipe) (drop-IsByte 6 recipe bytes)))
        (closing-IsByte iced cold intensity end closed))
      e2

-- On any recipe that consists of bytes, what the conversion returns is the recipe itself, when that
-- starts with the start byte of a command already, or else a well-formed frame.
pub recipe_to_brew_command-IsFrame :
    (recipe : List ℕ) (is_iced is_cold_brew : Bool) (intensity profile : ℤ) (cmd : List ℕ)
    → All IsByte recipe
    → recipe_to_brew_command recipe is_iced is_cold_brew intensity profile ≡ ok cmd
    → ((get_elem? recipe 0 ≡ some 0x0D) × (cmd ≡ recipe)) ⊎ IsFrame cmd
unfolding recipe_to_brew_command
recipe_to_brew_command-IsFrame recipe iced cold intensity profile cmd bytes e =
    let (first, e1, found) = >>=-ok _ (at recipe 0) e in
    elim (Bool-cases (first == 0x0D)) [
      | inl start ↦ inl (ground (arith, at-some recipe 0 first), ground arith)
      | inr other ↦
          inr (convert-IsFrame recipe iced cold intensity profile cmd bytes (rw other at e1))
    ]
