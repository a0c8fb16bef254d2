-- ===== src/Ecam/Text/RoundTrip.antt =====
-- Decoding the name field that was encoded.
use delonghi_ha.Prelude.{
  ℕ, ◌+◌, ◌-◌, ◌*◌, ◌/◌, ◌%◌, ◌≤◌, List, [], ◌∷◌, ◌++◌, Bool, true, false, ltb, leb, Bool-cases,
  inl, inr, length, length-append, length-replicate, take, replicate, map, ◌≡◌, refl, ap, ◌∙◌,
  arith, All, if◌then◌else◌,
}
use delonghi_ha.Prelude.Raise.{ok, raise, api}
use delonghi_ha.Ecam.Text.{
  pairs, nulls_even, nulls_odd, until_nul, decode_units, big_unit, little_unit, printable, strip,
  decode_utf16, encode_bean_name,
}
use delonghi_ha.Ecam.Text.Plain.{
  IsPlain, split, flat, high_nulls, low_nulls, length-flat, encode_utf16-plain, pairs-field,
  until_nul-field, sample_balance, big_unit-split, decode_units-plain, printable-plain,
}

-- The field of a name.
abbrev pub field : List ℕ → List ℕ
field name = flat name ++ replicate (2 * (20 - length name)) 0

rest_even : (n : ℕ) → 40 - 2 * n ≡ 2 * (20 - n)
rest_even n = omega arith

-- A plain name of at most twenty characters fills the field of forty bytes.
pub encode_bean_name-plain :
    (name : List ℕ)
    → All IsPlain name
    → encode_bean_name name ≡ (if leb (length name) 20 then ok (field name) else raise api)
unfolding encode_bean_name
encode_bean_name-plain name h =
    rw (encode_utf16-plain name h, length-flat name)
      (ground (arith, ap (λ n. flat name ++ replicate n 0) (rest_even (length name))))

-- The code point with the two bytes of a character exchanged.
abbrev pub swapped : ℕ → ℕ
swapped c = c % 256 * 256 + c / 256

-- What the decoder reads from the field.
abbrev pub read_back : List ℕ → List ℕ
read_back name =
    if leb (low_nulls (take 10 name)) (high_nulls (take 10 name))
    then strip name
    else strip (printable (decode_units (map swapped name)))

little_unit-split : (name : List ℕ) → map little_unit (map split name) ≡ map swapped name
little_unit-split [] = refl
little_unit-split (c ∷ cs) = ap (◌∷◌ (swapped c)) (little_unit-split cs)

pub length-field : (name : List ℕ) → length name ≤ 20 → length (field name) ≡ 40
length-field name l = omega (
  arith,
  length-append {0} (flat name) (replicate (2 * (20 - length name)) 0),
  length-flat name,
  length-replicate {0} {A = ℕ} (2 * (20 - length name)) 0,
)

-- On units that are known the decoder goes by the balance of the sample.
decode_by_balance :
    (bytes name : List ℕ) (units : List (ℕ × ℕ))
    → length bytes ≡ 40
    → All IsPlain name
    → pairs bytes ≡ units
    → until_nul units ≡ map split name
    → nulls_even (take 10 units) + low_nulls (take 10 name)
      ≡ nulls_odd (take 10 units) + high_nulls (take 10 name)
    → decode_utf16 bytes ≡ read_back name
unfolding decode_utf16
decode_by_balance bytes name units l h p u b =
    rw (p, u, long_enough (length bytes) l, same_test _ _ _ _ b)
      (read (leb (low_nulls (take 10 name)) (high_nulls (take 10 name))))
  where
    long_enough : (n : ℕ) → n ≡ 40 → ltb n 2 ≡ false
    long_enough n e = ground arith

    same_test : (e o lo hi : ℕ) → e + lo ≡ o + hi → leb o e ≡ leb lo hi
    same_test e o lo hi eq = ground arith

    read :
        (t : Bool)
        → strip (
            printable (
              decode_units
                (if t then map big_unit (map split name) else map little_unit (map split name))))
          ≡ (if t then strip name else strip (printable (decode_units (map swapped name))))
    read true =
        ap (λ t. strip (printable (decode_units t))) (big_unit-split name)
        ∙ ap (λ t. strip (printable t)) (decode_units-plain name h)
        ∙ ap strip (printable-plain name h)
    read false = ap (λ t. strip (printable (decode_units t))) (little_unit-split name)

-- The field of a plain name of at most twenty characters is read back as the name without
-- surrounding white space, unless more of its first ten characters have a zero low byte than have a
-- zero high byte: then every character is read with its bytes exchanged.
pub decode_utf16-field :
    (name : List ℕ)
    → All IsPlain name
    → length name ≤ 20
    → decode_utf16 (field name) ≡ read_back name
decode_utf16-field name h l =
    decode_by_balance (field name) name (map split name ++ replicate (20 - length name) (0, 0))
      (length-field name l) h (pairs-field name (20 - length name))
      (until_nul-field name (20 - length name) h) (sample_balance 10 name (20 - length name))

-- Whatever field is encoded for a plain name is read back as `read_back` says.
pub decode_utf16-encode_bean_name :
    (name bytes : List ℕ)
    → All IsPlain name
    → encode_bean_name name ≡ ok bytes
    → (length bytes ≡ 40) × (decode_utf16 bytes ≡ read_back name)
decode_utf16-encode_bean_name name bytes h e = elim (Bool-cases (leb (length name) 20)) [
  | inl short ↦
      let same : field name ≡ bytes = ground (arith, encode_bean_name-plain name h) in
      let l : length name ≤ 20 = ground arith in
      rw (← same) (length-field name l, decode_utf16-field name h l)
  | inr long ↦ absurd (ground (arith, encode_bean_name-plain name h))
]
