-- ===== src/Ecam/Custom/Laws.antt =====
-- Which custom drinks are refused, and that the command of any other is a frame.
use delonghi_ha.Prelude.{
  ℕ, ◌+◌, ◌<◌, ◌≤◌, List, [], ◌∷◌, ◌++◌, Bool, true, false, ◌&&◌, ◌==◌, String, str_eq, Option,
  none, some, ◌≡◌, refl, arith, All, All-append, length, length-append, Bool-cases, Option-cases,
  inl, inr, if◌then◌else◌,
}
use delonghi_ha.Prelude.Int.{
  ℤ, pos, negsuc, between, between_pos, low_byte, high_byte, to_byte, to_bytes, IsByte,
}
use delonghi_ha.Prelude.Dict.{Dict, lookup}
use delonghi_ha.Prelude.Raise.{Result, ok, raise, api, ◌>>=◌}
use delonghi_ha.Ecam.Catalog.{beverage_id, beverage_accessory, beverages, beverage_aliases, update}
use delonghi_ha.Ecam.Frame.{IsFrame}
use delonghi_ha.Ecam.Params.{get_recipe_accessory}
use delonghi_ha.Ecam.Brew.{brew_frame}
use delonghi_ha.Ecam.Brew.Laws.{brew_bytes, brew_frame_fits, brew_bytes-IsFrame}
use delonghi_ha.Ecam.Custom.{
  Custom, accessory_of, quantity, is_espresso, custom_params, command_for, custom_command,
}

-- At most `n` bytes.
abbrev Chunk : ℕ → List ℕ → Type 0
Chunk n xs = All IsByte xs × (length xs ≤ n)

Chunk-append : (m n : ℕ) (xs ys : List ℕ) → Chunk m xs → Chunk n ys → Chunk (m + n) (xs ++ ys)
Chunk-append m n xs ys h k =
    (All-append IsByte xs ys h.0 k.0, omega (arith, length-append {0} xs ys))

high_byte-lt : (q : ℤ) → high_byte q < 256
high_byte-lt (pos n) = omega arith
high_byte-lt (negsuc n) = omega arith

low_byte-lt : (q : ℤ) → low_byte q < 256
low_byte-lt (pos n) = omega arith
low_byte-lt (negsuc n) = omega arith

quantity-Chunk : (pid : ℕ) (q : Option ℤ) → pid < 256 → Chunk 3 (quantity pid q)
quantity-Chunk pid none h = (tt, omega arith)
quantity-Chunk pid (some q) h = ((h, (high_byte-lt q, (low_byte-lt q, tt))), omega arith)

-- The parameters of bytes, with the optional parts given.
abbrev params_of : List ℕ → List ℕ → List ℕ → ℕ → List ℕ → List ℕ → List ℕ → List ℕ
params_of milk shots coffee taste water milk_qty tea =
    milk
    ++ (shots
        ++ (coffee
            ++ (water ++ (27 ∷ 1 ∷ ((2 ∷ taste ∷ []) ++ (milk_qty ++ (tea ++ 39 ∷ 1 ∷ [])))))))

params_of-Chunk :
    (milk shots coffee : List ℕ) (taste : ℕ) (water milk_qty tea : List ℕ)
    → Chunk 4 milk
    → Chunk 2 shots
    → Chunk 3 coffee
    → taste < 256
    → Chunk 3 water
    → Chunk 3 milk_qty
    → Chunk 2 tea
    → Chunk 23 (params_of milk shots coffee taste water milk_qty tea)
params_of-Chunk milk shots coffee taste water milk_qty tea h1 h2 h3 h4 h5 h6 h7 =
    Chunk-append 4 19 milk _ h1 (
      Chunk-append 2 17 shots _ h2 (
        Chunk-append 3 14 coffee _ h3 (
          Chunk-append 3 11 water _ h5 (
            Chunk-append 4 7 (27 ∷ 1 ∷ 2 ∷ taste ∷ []) _ (omega arith)
              (Chunk-append 3 4 milk_qty _ h6 (Chunk-append 2 2 tea _ h7 (omega arith)))))))

lookup-byte :
    (k : String) (m : Dict ℕ) (v : ℕ) → All (λ e. e.1 < 256) m → lookup k m ≡ some v → v < 256
unfolding lookup
lookup-byte k [] v h e = cc
lookup-byte k ((j, w) ∷ m) v h e = elim (Bool-cases (str_eq k j)) [
  | inl hit ↦ let same : w ≡ v = ground arith in rw (← same) h.0
  | inr miss ↦ lookup-byte k m v h.1 (rw miss at e)
]

beverage_id-byte : (b : String) (n : ℕ) → beverage_id b ≡ some n → n < 256
unfolding beverage_id
beverage_id-byte b n e = lookup-byte b (update beverages beverage_aliases) n (omega arith) e

accessory_of-byte : (b : String) → accessory_of b < 256
unfolding accessory_of
accessory_of-byte b = elim (Option-cases (lookup b beverage_accessory)) [
  | inl e ↦ rw (e, accessory_of) (omega arith)
  | inr (n, e) ↦ rw (e, accessory_of) (lookup-byte b beverage_accessory n (omega arith) e)
]

-- The settings of a custom drink that are written as single bytes.
abbrev pub HasBytes : Custom → Type 0
HasBytes c =
    (between 0 c.taste 255 ≡ true)
    × (between 0 c.milk_froth 255 ≡ true)
    × (between 0 c.temperature 255 ≡ true)

byte_of : (x : ℤ) → between 0 x 255 ≡ true → (n : ℕ) × (n < 256) × (to_byte x ≡ ok n)
byte_of x h =
    let (n, e, _, u) = between_pos 0 x 255 h in (n, omega arith, rw e (fits n (omega arith)))
  where
    fits : (n : ℕ) → n < 256 → to_byte (pos n) ≡ ok n
    fits n h = ground arith

-- The optional parts that need a byte.
milk_part :
    (acc : ℕ) (froth : ℤ)
    → acc < 256
    → between 0 froth 255 ≡ true
    → (xs : List ℕ) × ((if acc == 0
          then ok []
          else to_bytes (pos 28 ∷ pos acc ∷ pos 11 ∷ froth ∷ []))
        ≡ ok xs)
      × Chunk 4 xs
milk_part acc froth h b =
    let (n, small, e) = byte_of froth b in
    elim (Bool-cases (acc == 0)) [
      | inl none_needed ↦ ([], rw none_needed, omega arith)
      | inr needed ↦ (28 ∷ acc ∷ 11 ∷ n ∷ [], rw (needed, e) (ground arith), omega arith)
    ]

tea_part :
    (t : Bool) (temperature : ℤ)
    → between 0 temperature 255 ≡ true
    → (xs : List ℕ) × ((if t then to_bytes (pos 13 ∷ temperature ∷ []) else ok []) ≡ ok xs)
      × Chunk 2 xs
tea_part true temperature b =
    let (n, small, e) = byte_of temperature b in (13 ∷ n ∷ [], rw e, omega arith)
tea_part false temperature b = ([], refl, omega arith)

shots_part : (t d : Bool) → Chunk 2 (if t then 8 ∷ (if d then 1 else 0) ∷ [] else [])
shots_part true true = omega arith
shots_part true false = omega arith
shots_part false d = omega arith

custom_params-Chunk :
    (c : Custom) (acc : ℕ)
    → acc < 256
    → HasBytes c
    → (params : List ℕ) × (custom_params c acc ≡ ok params) × Chunk 23 params
unfolding custom_params
custom_params-Chunk c acc h bytes =
    let (milk, em, cm) = milk_part acc c.milk_froth h bytes.1 in
    let (tea, et, ct) = tea_part (str_eq c.beverage "tea") c.temperature bytes.2 in
    let (taste, small, es) = byte_of c.taste bytes.0 in
    let shots : List ℕ =
      if is_espresso c.beverage
      then 8 ∷ (if str_eq c.beverage "doppio" then 1 else 0) ∷ []
      else [] in
    (
      params_of milk shots (quantity 1 c.coffee_qty) taste (quantity 15 c.water_qty)
          (quantity 9 c.milk_qty) tea,
      rw (em, es, et),
      params_of-Chunk milk shots (quantity 1 c.coffee_qty) taste (quantity 15 c.water_qty)
          (quantity 9 c.milk_qty) tea cm
          (shots_part (is_espresso c.beverage) (str_eq c.beverage "doppio"))
          (quantity-Chunk 1 c.coffee_qty (omega arith)) small
          (quantity-Chunk 15 c.water_qty (omega arith)) (quantity-Chunk 9 c.milk_qty (omega arith))
          ct,
    )

fake_accessory :
    (bev_id acc : ℕ)
    → get_recipe_accessory (0xD0 ∷ 0 ∷ 0xA6 ∷ 0xF0 ∷ 1 ∷ bev_id ∷ 28 ∷ acc ∷ 0 ∷ 0 ∷ []) ≡ some acc
unfolding get_recipe_accessory
fake_accessory bev_id acc = refl

-- A command that is a frame is built, with a stand-in recipe that names the drink's accessory; or else
-- DeLonghiApiError is raised.
abbrev pub Brews : Bool → ℕ → Result (List ℕ × List ℕ) → Type 0
Brews true acc r =
    (cmd fake : List ℕ) × (r ≡ ok (cmd, fake))
    × IsFrame cmd
    × (get_recipe_accessory fake ≡ some acc)
Brews false acc r = r ≡ raise api

stand_in :
    (bev_id acc : ℕ)
    → bev_id < 256
    → acc < 256
    → to_bytes (
        pos 0xD0
        ∷ pos 0
        ∷ pos 0xA6
        ∷ pos 0xF0
        ∷ pos 1
        ∷ pos bev_id
        ∷ pos 28
        ∷ pos acc
        ∷ pos 0
        ∷ pos 0
        ∷ [])
      ≡ ok (0xD0 ∷ 0 ∷ 0xA6 ∷ 0xF0 ∷ 1 ∷ bev_id ∷ 28 ∷ acc ∷ 0 ∷ 0 ∷ [])
stand_in bev_id acc h k = ground arith

-- The part of `command_for` behind its guards.
build :
    (c : Custom) (bev_id : ℕ) (profile : ℤ)
    → bev_id < 256
    → HasBytes c
    → between 1 profile 5 ≡ true
    → Brews true (accessory_of c.beverage) (
        custom_params c (accessory_of c.beverage) >>= λ params.
        brew_frame bev_id params profile >>= λ cmd.
        to_bytes (
          pos 0xD0
          ∷ pos 0
          ∷ pos 0xA6
          ∷ pos 0xF0
          ∷ pos 1
          ∷ pos bev_id
          ∷ pos 28
          ∷ pos (accessory_of c.beverage)
          ∷ pos 0
          ∷ pos 0
          ∷ [])
        >>= λ fake_recipe. ok (cmd, fake_recipe))
build c bev_id profile h bytes t =
    let acc = accessory_of c.beverage in
    let acc_byte = accessory_of-byte c.beverage in
    let (params, ep, chunk) = custom_params-Chunk c acc acc_byte bytes in
    let (p, e, _, u) = between_pos 1 profile 5 t in
    (
      brew_bytes bev_id params p,
      0xD0 ∷ 0 ∷ 0xA6 ∷ 0xF0 ∷ 1 ∷ bev_id ∷ 28 ∷ acc ∷ 0 ∷ 0 ∷ [],
      rw (
        ep,
        e,
        brew_frame_fits bev_id params p h (omega arith) (omega arith),
        stand_in bev_id acc h acc_byte,
      ),
      brew_bytes-IsFrame bev_id params p h (omega arith) (omega arith) chunk.0,
      fake_accessory bev_id acc,
    )

-- `beverage in _BEVERAGE_IDS`
abbrev pub is_some : Option ℕ → Bool
is_some none = false
is_some (some n) = true

command_for-Brews :
    (o : Option ℕ) (c : Custom)
    → beverage_id c.beverage ≡ o
    → HasBytes c
    → Brews (is_some o && between 1 c.profile 5) (accessory_of c.beverage) (command_for o c)
unfolding command_for
command_for-Brews none c known bytes = refl
command_for-Brews (some bev_id) c known bytes = elim (Bool-cases (between 1 c.profile 5)) [
  | inl t ↦ rw t (build c bev_id c.profile (beverage_id-byte c.beverage bev_id known) bytes t)
  | inr f ↦ rw f refl
]

-- With a taste, a froth level and a temperature that are bytes, the command is built, and is a frame,
-- exactly for a known drink and a profile from 1 to 5; the recipe made up for the accessory check asks
-- for the accessory of the drink. Otherwise DeLonghiApiError is raised.
pub custom_command_lem :
    (c : Custom)
    → HasBytes c
    → Brews
        (is_some (beverage_id c.beverage) && between 1 c.profile 5)
        (accessory_of c.beverage)
        (custom_command c)
unfolding custom_command
custom_command_lem c bytes = command_for-Brews (beverage_id c.beverage) c refl bytes
