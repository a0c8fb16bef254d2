-- ===== src/Ecam/Examples.antt =====
-- Tests of the ECAM modules on concrete data, and their theorems at concrete inputs.
use delonghi_ha.Prelude.{
  ℕ, List, [], ◌∷◌, ◌++◌, true, false, ◌&&◌, ltb, leb, none, some, ◌≡◌, ◌≢◌, ◌↔◌, refl, arith,
  length, replicate, if◌then◌else◌, ◌⊎◌, get_elem?,
}
use delonghi_ha.Prelude.Int.{pos}
use delonghi_ha.Prelude.Raise.{ok, raise, value_error}
use delonghi_ha.Ecam.Catalog.{beverage_id}
use delonghi_ha.Ecam.Crc.{crc16}
use delonghi_ha.Ecam.Crc.Register.{register, big_endian, crc16-register}
use delonghi_ha.Ecam.Crc.Detect.{crc16_detects_byte, crc16_residue_iff}
use delonghi_ha.Ecam.Frame.{seal, IsFrame}
use delonghi_ha.Ecam.Params.{copy_params, get_recipe_accessory}
use delonghi_ha.Ecam.Params.Laws.{Param, small, big, encode, without}
use delonghi_ha.Ecam.Brew.{brew_frame, closing, convert, recipe_to_brew_command}
use delonghi_ha.Ecam.Brew.Laws.{brew_bytes, brew_frame_lem}
use delonghi_ha.Ecam.Brew.Recipe.{
  hidden, stored, closing_params, recipe_to_brew_command-encode, recipe_to_brew_command-IsFrame,
  get_recipe_accessory-encode,
}
use delonghi_ha.Ecam.Text.{
  decode_utf16, encode_bean_name, encode_utf16, encode_code, pairs, nulls_even, nulls_odd,
  until_nul, decode_units, printable, strip,
}
use delonghi_ha.Ecam.Text.RoundTrip.{read_back, decode_utf16-encode_bean_name}
use delonghi_ha.Ecam.Command.{
  profile_command, bean_select_command, bean_read_command, Bean, bean_write_command,
}
use delonghi_ha.Ecam.Command.Laws.{Builds, short_commands}
use delonghi_ha.Ecam.Command.BeanWrite.{Writes, settings, bean_write_command_lem}
use delonghi_ha.Ecam.Custom.{Custom, accessory_of, custom_command}
use delonghi_ha.Ecam.Custom.Laws.{is_some, Brews, custom_command_lem}
use delonghi_ha.Ecam.Monitor.{all_alarms, parse_monitor}
use delonghi_ha.Ecam.Monitor.Laws.{word_of, select, is_set, parse_monitor_lem}

-- The three commands whose bytes the source writes out end in their checksum.
written_commands :
    (crc16 (0x0d ∷ 0x07 ∷ 0x84 ∷ 0x0f ∷ 0x02 ∷ 0x01 ∷ []) ≡ 0x55 ∷ 0x12 ∷ [])
    × (crc16 (0x0d ∷ 0x07 ∷ 0x84 ∷ 0x0f ∷ 0x01 ∷ 0x01 ∷ []) ≡ 0x00 ∷ 0x41 ∷ [])
    × (crc16 (0x0d ∷ 0x07 ∷ 0x84 ∷ 0x0f ∷ 0x03 ∷ 0x02 ∷ []) ≡ 0x56 ∷ 0x40 ∷ [])
unfolding crc16
written_commands = (refl, refl, refl)

crc16-register_example :
    crc16 (0x0d ∷ 0x04 ∷ 0x8f ∷ []) ≡ big_endian (register 0x1D0F (0x0d ∷ 0x04 ∷ 0x8f ∷ []))
crc16-register_example = crc16-register (0x0d ∷ 0x04 ∷ 0x8f ∷ [])

crc16_detects_byte_test : crc16 (0x0d ∷ 0x05 ∷ 0xA9 ∷ 1 ∷ []) ≢ crc16 (0x0d ∷ 0x05 ∷ 0xA9 ∷ 2 ∷ [])
crc16_detects_byte_test =
    crc16_detects_byte (0x0d ∷ 0x05 ∷ 0xA9 ∷ []) [] 1 2 (omega arith) (omega arith) (omega arith)

crc16_residue_test :
    (register 0x1D0F (0x0d ∷ 0x04 ∷ 0x8f ∷ 0x2e ∷ 0x5b ∷ []) ≡ 0)
    ↔ (crc16 (0x0d ∷ 0x04 ∷ 0x8f ∷ []) ≡ 0x2e ∷ 0x5b ∷ [])
crc16_residue_test =
    crc16_residue_iff (0x0d ∷ 0x04 ∷ 0x8f ∷ []) 0x2e 0x5b (omega arith) (omega arith)

abbrev espresso_params : List Param
espresso_params = small 8 0 ∷ big 1 0 40 ∷ small 27 4 ∷ small 2 3 ∷ small 25 1 ∷ small 28 2 ∷ []

abbrev espresso : List ℕ
espresso = stored 0xD0 0x14 0xA6 0xF0 2 1 (encode espresso_params) 0x12 0x34

espresso_command :
    recipe_to_brew_command espresso false false (pos 1) (pos 2)
    ≡ ok (
        seal (
          0x0D ∷ 21 ∷ 0x83 ∷ 0xF0 ∷ 1 ∷ 3 ∷ 8 ∷ 0 ∷ 1 ∷ 0 ∷ 40 ∷ 2 ∷ 3 ∷ 28 ∷ 2 ∷ 27 ∷ 1 ∷ 39 ∷ 1
          ∷ 10 ∷ []))
unfolding recipe_to_brew_command convert closing brew_frame copy_params seal crc16
espresso_command = refl

recipe_to_brew_command-encode_example :
    recipe_to_brew_command espresso true false (pos 1) (pos 2)
    ≡ ok (
        brew_bytes 1
          (encode (without (hidden true false) espresso_params ++ closing_params true false 1))
          2)
recipe_to_brew_command-encode_example =
    recipe_to_brew_command-encode 0xD0 0x14 0xA6 0xF0 2 1 espresso_params 0x12 0x34 true false 1 2
      (omega arith) (omega arith) (refl, (refl, (refl, (refl, (refl, (refl, tt)))))) (omega arith)
      (omega arith) (omega arith)

recipe_to_brew_command-IsFrame_test :
    ((get_elem? espresso 0 ≡ some 0x0D)
      × (brew_bytes 1
            (encode (without (hidden false false) espresso_params ++ closing_params false false 1))
            2
          ≡ espresso))
    ⊎ IsFrame (
        brew_bytes 1
          (encode (without (hidden false false) espresso_params ++ closing_params false false 1))
          2)
recipe_to_brew_command-IsFrame_test =
    recipe_to_brew_command-IsFrame espresso false false (pos 1) (pos 2)
      (brew_bytes 1
        (encode (without (hidden false false) espresso_params ++ closing_params false false 1)) 2)
      (omega arith) espresso_command

get_recipe_accessory-encode_test : get_recipe_accessory espresso ≡ some 2
get_recipe_accessory-encode_test =
    get_recipe_accessory-encode 0xD0 0x14 0xA6 0xF0 2 1 espresso_params 0x12 0x34
      (refl, (refl, (refl, (refl, (refl, (refl, tt))))))

brew_frame_lem_test : brew_frame 1 (39 ∷ 1 ∷ []) (pos 64) ≡ (
    if leb (length {A = ℕ} (39 ∷ 1 ∷ [])) 247 && ltb 64 64
    then ok (brew_bytes 1 (39 ∷ 1 ∷ []) 64)
    else raise value_error)
brew_frame_lem_test = brew_frame_lem 1 (39 ∷ 1 ∷ []) 64 (omega arith)

-- "Moka"
abbrev moka : List ℕ
moka = 0x4D ∷ 0x6F ∷ 0x6B ∷ 0x61 ∷ []

abbrev moka_field : List ℕ
moka_field = 0 ∷ 0x4D ∷ 0 ∷ 0x6F ∷ 0 ∷ 0x6B ∷ 0 ∷ 0x61 ∷ replicate 32 0

encoded_moka : encode_bean_name moka ≡ ok moka_field
unfolding encode_bean_name encode_utf16 encode_code
encoded_moka = refl

decode_utf16-encode_bean_name_example :
    (length moka_field ≡ 40) × (decode_utf16 moka_field ≡ read_back moka)
decode_utf16-encode_bean_name_example =
    decode_utf16-encode_bean_name moka moka_field (grind arith) encoded_moka

-- A name of one Chinese character whose low byte is zero comes back as a Latin letter.
misread_name : decode_utf16 (0x4E ∷ 0x00 ∷ replicate 38 0) ≡ 0x4E ∷ []
unfolding decode_utf16 pairs nulls_even nulls_odd until_nul decode_units printable strip
misread_name = refl

abbrev blend : Bean
blend = record {
  slot = pos 3;
  name = moka;
  temperature = pos 10;
  intensity = pos 2;
  grinder = pos 4;
  flag1 = pos 0;
  flag2 = pos 1;
}

bean_write_command_lem_example :
    Writes true blend.slot moka (settings blend) (bean_write_command blend)
bean_write_command_lem_example = bean_write_command_lem blend (grind arith)

short_commands_test :
    Builds true (profile_command (pos 5))
    × Builds false (bean_select_command (pos 8))
    × Builds false (bean_read_command (pos 8))
short_commands_test = short_commands (pos 5) (pos 8)

abbrev latte : Custom
latte = record {
  beverage = "latte_macchiato";
  coffee_qty = some (pos 60);
  milk_qty = some (pos 300);
  water_qty = none;
  taste = pos 3;
  milk_froth = pos 2;
  temperature = pos 1;
  profile = pos 1;
}

latte_known : is_some (beverage_id "latte_macchiato") ≡ true
unfolding beverage_id
latte_known = refl

custom_command_lem_example :
    Brews
      (is_some (beverage_id "latte_macchiato") && true)
      (accessory_of "latte_macchiato")
      (custom_command latte)
custom_command_lem_example = custom_command_lem latte (refl, refl, refl)

-- Drip tray missing (bit 11) and descale needed (bit 2), ready.
abbrev ready_raw : List ℕ
ready_raw = 0xD0 ∷ 0x12 ∷ 0x75 ∷ 0x0F ∷ 2 ∷ 0 ∷ 1 ∷ 4 ∷ 8 ∷ 7 ∷ 0 ∷ 0 ∷ 0 ∷ 0 ∷ 0 ∷ []

parse_monitor_lem_example :
    ((parse_monitor ready_raw).alarm_word ≡ some (word_of ready_raw))
    × ((parse_monitor ready_raw).alarms ≡ select (λ a. is_set ready_raw a.bit) all_alarms)
parse_monitor_lem_example = parse_monitor_lem ready_raw (omega arith)

two_alarms : (parse_monitor ready_raw).alarm_word ≡ some 2052
unfolding parse_monitor
two_alarms = refl
