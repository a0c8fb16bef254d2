-- ===== src/Ecam/Text/Plain.antt =====
-- Names whose characters are printable and lie in the basic plane: each is one unit of two bytes.
use delonghi_ha.Prelude.{
  ℕ, zero, suc, ◌+◌, ◌*◌, ◌/◌, ◌%◌, ◌<◌, ◌≤◌, List, [], ◌∷◌, ◌++◌, false, ◌||◌, ◌==◌, length, take,
  replicate, map, ◌≡◌, refl, ap, ap₂, ◌∙◌, arith, All, if◌then◌else◌,
}
use delonghi_ha.Prelude.Raise.{ok}
use delonghi_ha.Ecam.Text.{
  pairs, nulls_even, nulls_odd, until_nul, is_high, is_low, decode_units, big_unit, printable,
  encode_code, encode_utf16,
}

abbrev pub IsPlain : ℕ → Type 0
IsPlain c = (0x20 ≤ c) × (c < 0x10000) × (is_high c || is_low c ≡ false)

-- The two bytes of a character.
abbrev pub split : ℕ → ℕ × ℕ
split c = (c / 256, c % 256)

abbrev pub flat : List ℕ → List ℕ
flat [] = []
flat (c ∷ cs) = c / 256 ∷ c % 256 ∷ flat cs

-- The characters with a zero high byte, and those with a zero low byte.
abbrev pub high_nulls : List ℕ → ℕ
high_nulls [] = 0
high_nulls (c ∷ cs) = (if c / 256 == 0 then 1 else 0) + high_nulls cs

abbrev pub low_nulls : List ℕ → ℕ
low_nulls [] = 0
low_nulls (c ∷ cs) = (if c % 256 == 0 then 1 else 0) + low_nulls cs

pub length-flat : (name : List ℕ) → length (flat name) ≡ 2 * length name
length-flat [] = refl
length-flat (c ∷ cs) = omega (arith, length-flat cs)

encode_code-plain : (c : ℕ) → IsPlain c → encode_code c ≡ ok (c / 256 ∷ c % 256 ∷ [])
unfolding encode_code
encode_code-plain c h = ground arith

pub encode_utf16-plain : (name : List ℕ) → All IsPlain name → encode_utf16 name ≡ ok (flat name)
unfolding encode_utf16
encode_utf16-plain [] h = refl
encode_utf16-plain (c ∷ cs) h = rw (encode_code-plain c h.0, encode_utf16-plain cs h.1)

pairs-zeros : (k : ℕ) → pairs (replicate (2 * k) 0) ≡ replicate k (0, 0)
unfolding pairs
pairs-zeros zero = refl
pairs-zeros (suc k) =
    ap (λ n. pairs (replicate n 0)) {x = 2 * suc k} {y = suc (suc (2 * k))} (omega arith)
    ∙ ap (◌∷◌ (0, 0)) (pairs-zeros k)

-- The units of a padded name are its characters and then zeros.
pub pairs-field :
    (name : List ℕ) (k : ℕ)
    → pairs (flat name ++ replicate (2 * k) 0) ≡ map split name ++ replicate k (0, 0)
unfolding pairs
pairs-field [] k = pairs-zeros k
pairs-field (c ∷ cs) k = ap (◌∷◌ (split c)) (pairs-field cs k)

until_nul-zeros : (k : ℕ) → until_nul (replicate k (0, 0)) ≡ []
unfolding until_nul
until_nul-zeros zero = refl
until_nul-zeros (suc k) = refl

-- The first aligned pair of zeros is the first of the padding.
pub until_nul-field :
    (name : List ℕ) (k : ℕ)
    → All IsPlain name
    → until_nul (map split name ++ replicate k (0, 0)) ≡ map split name
unfolding until_nul
until_nul-field [] k h = until_nul-zeros k
until_nul-field (c ∷ cs) k h = ground (arith, h.0, until_nul-field cs k h.1)

zeros_balanced :
    (n k : ℕ) → nulls_even (take n (replicate k (0, 0))) ≡ nulls_odd (take n (replicate k (0, 0)))
unfolding nulls_even nulls_odd
zeros_balanced zero k = refl
zeros_balanced (suc n) zero = refl
zeros_balanced (suc n) (suc k) = ap suc' (zeros_balanced n k)
  where
    suc' : ℕ → ℕ
    suc' m = 1 + m

-- The padding counts for both sides alike.
pub sample_balance :
    (n : ℕ) (name : List ℕ) (k : ℕ)
    → nulls_even (take n (map split name ++ replicate k (0, 0))) + low_nulls (take n name)
      ≡ nulls_odd (take n (map split name ++ replicate k (0, 0))) + high_nulls (take n name)
unfolding nulls_even nulls_odd
sample_balance zero name k = refl
sample_balance (suc n) [] k = omega (arith, zeros_balanced (suc n) k)
sample_balance (suc n) (c ∷ cs) k = omega (arith, sample_balance n cs k)

pub big_unit-split : (name : List ℕ) → map big_unit (map split name) ≡ name
big_unit-split [] = refl
big_unit-split (c ∷ cs) =
    ap₂ ◌∷◌ {x = c / 256 * 256 + c % 256} {y = c} (omega arith) (big_unit-split cs)

pub decode_units-plain : (name : List ℕ) → All IsPlain name → decode_units name ≡ name
unfolding decode_units
decode_units-plain [] h = refl
decode_units-plain (c ∷ []) h = ground (arith, h.0)
decode_units-plain (c ∷ d ∷ cs) h = ground (arith, h.0, decode_units-plain (d ∷ cs) h.1)

pub printable-plain : (name : List ℕ) → All IsPlain name → printable name ≡ name
unfolding printable
printable-plain [] h = refl
printable-plain (c ∷ cs) h = ground (arith, h.0, printable-plain cs h.1)
