-- ===== src/Stored/Examples.antt =====
-- Payloads of profiles and beans.
use delonghi_ha.Prelude.{◌≡◌, refl, ap, ℕ, List, [], ◌∷◌, ◌++◌, none, some, replicate}
use delonghi_ha.Ecam.Text.{decode_utf16}
use delonghi_ha.Stored.{
  Encoded, profile, profiles_1_3, profile_4, active_of, parse_profiles, read_bean, bean_number,
}
use delonghi_ha.Stored.Laws.{field, bean, bean_value, read_bean_lem, profiles_1_3_lem}

-- A name of one letter, and its nine units of zero bytes.
abbrev one_letter : ℕ → List ℕ
one_letter c = 0 ∷ c ∷ replicate 18 0

abbrev header : List ℕ
header = 0xD0 ∷ 0x3A ∷ 0xA4 ∷ 0xF0 ∷ 0x01 ∷ []

read_bean_test :
    read_bean 2 (
      some (
        some (
          bean_value 2 header
            (one_letter 0x41)
            (one_letter 0x42)
            (7 ∷ 8 ∷ [])
            (1 ∷ 2 ∷ [])
            refl
            refl
            refl
            refl)))
    ≡ bean 2 49 (decode_utf16 (one_letter 0x41)) (decode_utf16 (one_letter 0x42)) (7 ∷ 8 ∷ []) ∷ []
read_bean_test =
    read_bean_lem 2 header (one_letter 0x41) (one_letter 0x42) (7 ∷ 8 ∷ []) (1 ∷ 2 ∷ []) refl refl
      refl refl

profiles_test :
    profiles_1_3 (
      some (
        some (
          (0x00 ∷ header)
          ++ ((field (one_letter 0x41) 3 0
                ++ (field (one_letter 0x42) 1 0 ++ field (one_letter 0x43) 8 0))
              ++ (1 ∷ 2 ∷ [])))))
    ≡ (1, profile (decode_utf16 (one_letter 0x41)) 3)
      ∷ (2, profile (decode_utf16 (one_letter 0x42)) 1)
      ∷ (3, profile (decode_utf16 (one_letter 0x43)) 8)
      ∷ []
profiles_test =
    profiles_1_3_lem (0x00 ∷ header) (1 ∷ 2 ∷ []) (one_letter 0x41) (one_letter 0x42)
      (one_letter 0x43) 3 0 1 0 8 0 refl refl refl refl refl

-- Nothing is read of missing properties, and a slot that does not decode keeps its number.
no_profiles : parse_profiles none (some none) none ≡ (1, [])
unfolding parse_profiles profiles_1_3 profile_4 active_of
no_profiles = refl

one_bean :
    (value : ℕ → Encoded)
    → value 0 ≡ some none
    → read_bean 0 (value 0)
      ≡ record {
        id = 0;
        name = bean_number 0;
        english_name = bean_number 0;
        raw_bytes = 0;
        raw_params = [];
      }
        ∷ []
unfolding read_bean
one_bean value e = ap (read_bean 0) e
