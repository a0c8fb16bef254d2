-- ===== src/Model/Examples.antt =====
-- Serial numbers and tables.
use delonghi_ha.Prelude.{◌≡◌, refl, ℕ, List, [], ◌∷◌, ◌++◌, false, Option, none, some, replicate}
use delonghi_ha.Model.Serial.{
  ascii_digit, base64_tail, is_base64_text, fits, search_serial, value_from, is_date, serial_of,
  try_decode_binary_serial, digits_in, parse_serial_number,
}
use delonghi_ha.Model.{
  Machine, ends_in, by_suffix, by_app_id, by_sku, by_oem, match_transcode_table, no_table,
  fetch_transcode_table, matched, fallback, identify_model,
}

-- "217055ZZ250228A1234" behind six bytes and before three.
abbrev payload : List ℕ
payload =
    0x32 ∷ 0x31 ∷ 0x37 ∷ 0x30 ∷ 0x35 ∷ 0x35 ∷ 0x5A ∷ 0x5A ∷ 0x32 ∷ 0x35 ∷ 0x30 ∷ 0x32 ∷ 0x32 ∷ 0x38
    ∷ 0x41 ∷ 0x31 ∷ 0x32 ∷ 0x33 ∷ 0x34 ∷ []

abbrev always : List ℕ → Option (List ℕ)
always text = some (replicate 6 0xD0 ++ (payload ++ replicate 3 0))

abbrev nothing : List ℕ → Option (List ℕ)
nothing text = none

abbrev eletta : Machine
eletta = record {
  product_code = 0x30 ∷ 0x32 ∷ 0x31 ∷ 0x37 ∷ 0x30 ∷ 0x35 ∷ 0x35 ∷ [];
  app_model_id = some (0x50 ∷ []);
}

abbrev encoded : List ℕ
encoded = replicate 38 0x41 ++ (0x3D ∷ 0x3D ∷ [])

by_serial :
    identify_model nothing nothing always ascii_digit (some (eletta ∷ [])) [] (some encoded) none
    ≡ matched eletta
unfolding base64_tail is_base64_text fits search_serial value_from is_date serial_of
    try_decode_binary_serial digits_in parse_serial_number ends_in by_suffix by_app_id by_sku by_oem
    match_transcode_table identify_model
by_serial = refl

not_in_table :
    identify_model nothing nothing nothing ascii_digit none (0x44 ∷ []) none none
    ≡ fallback (0x44 ∷ []) (0x44 ∷ [])
unfolding identify_model parse_serial_number
not_in_table = refl

no_february_31 : is_date 2025 2 31 ≡ false
unfolding is_date
no_february_31 = refl

cached : fetch_transcode_table no_table (some (eletta ∷ [])) ≡ some (eletta ∷ [])
unfolding fetch_transcode_table
cached = refl
