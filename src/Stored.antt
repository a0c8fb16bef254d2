-- ===== src/Stored.antt =====
-- What the device stores of its users: `parse_profiles`, `parse_bean_systems` and `parse_bean_system_par`
-- of custom_components/delonghi_coffee/api.py. Texts are lists of code points.
pub mod Laws
mod Examples
use delonghi_ha.Prelude.{
  ℕ, suc, ◌+◌, ◌-◌, ◌/◌, ◌%◌, List, [], ◌∷◌, ◌++◌, Bool, true, false, ◌==◌, leb, length, take, drop,
  get_or, Option, none, some, if◌then◌else◌,
}
use delonghi_ha.Ecam.Text.{decode_utf16}

-- A property's value: none if it is missing or empty, and no bytes where base64 raises ValueError.
abbrev pub Encoded : Type 0
Encoded = Option (Option (List ℕ))

-- `raw[n:-2]`
unfoldable pub inner : ℕ → List ℕ → List ℕ
inner n raw = drop n (take (length raw - 2) raw)

-- `colors` and `figures`, with "unknown" for any other number.
pub data Color : Type 0 where
  green red blue orange unknown_color : Color

pub data Figure : Type 0 where
  woman man kid unknown_figure : Figure

unfoldable pub color_of : ℕ → Color
color_of n =
    if n == 0
    then green
    else if n == 1
    then red
    else if n == 2
    then blue
    else if n == 3
    then orange
    else unknown_color

unfoldable pub figure_of : ℕ → Figure
figure_of n =
    if n == 0 then woman else if n == 1 then man else if n == 2 then kid else unknown_figure

pub record Profile : Type 0 where
  pub name : List ℕ
  pub color : Color
  pub figure : Figure
  pub icon_id : ℕ

abbrev pub profile : List ℕ → ℕ → Profile
profile name icon = record {
  name = name;
  color = color_of (icon / 3);
  figure = figure_of (icon % 3);
  icon_id = icon;
}

-- The profile at an offset, of 20 bytes of name and the icon, with its number.
unfoldable pub slot : ℕ → ℕ → List ℕ → List (ℕ × Profile)
slot number offset bytes =
    if leb (offset + 20) (length bytes)
    then (
      number,
      profile (decode_utf16 (take 20 (drop offset bytes))) (get_or bytes (offset + 20) 0),
    )
      ∷ []
    else []

unfoldable pub profiles_1_3 : Encoded → List (ℕ × Profile)
profiles_1_3 none = []
profiles_1_3 (some none) = []
profiles_1_3 (some (some raw)) =
    slot 1 0 (inner 6 raw) ++ (slot 2 22 (inner 6 raw) ++ slot 3 44 (inner 6 raw))

unfoldable pub profile_4 : Encoded → List (ℕ × Profile)
profile_4 none = []
profile_4 (some none) = []
profile_4 (some (some raw)) = slot 4 0 (inner 6 raw)

unfoldable pub active_of : Encoded → ℕ
active_of none = 1
active_of (some none) = 1
active_of (some (some raw)) = get_or raw 4 1

-- `active` and `profiles`, from the three properties.
unfoldable pub parse_profiles : Encoded → Encoded → Encoded → ℕ × List (ℕ × Profile)
parse_profiles name1_3 name4 mach_sett =
    (active_of mach_sett, profiles_1_3 name1_3 ++ profile_4 name4)

pub record BeanSystem : Type 0 where
  pub id : ℕ
  pub name : List ℕ
  pub english_name : List ℕ
  pub raw_bytes : ℕ
  pub raw_params : List ℕ

-- "Bean {i}", for one digit.
abbrev pub bean_number : ℕ → List ℕ
bean_number i = 0x42 ∷ 0x65 ∷ 0x61 ∷ 0x6E ∷ 0x20 ∷ (0x30 + i) ∷ []

abbrev pub or_text : List ℕ → List ℕ → List ℕ
or_text [] default = default
or_text (c ∷ text) default = c ∷ text

abbrev pub short_name : ℕ → List ℕ → List ℕ
short_name i [] = bean_number i
short_name i (b ∷ bytes) = decode_utf16 (b ∷ bytes)

unfoldable pub local_name : ℕ → List ℕ → List ℕ
local_name i bytes =
    if leb 20 (length bytes) then decode_utf16 (take 20 bytes) else short_name i bytes

unfoldable pub english_of : List ℕ → List ℕ → List ℕ
english_of local bytes =
    if leb 40 (length bytes) then decode_utf16 (take 20 (drop 20 bytes)) else local

-- The entry for a payload; `drop` gives the empty text where there are no more than 40 bytes.
unfoldable pub bean_of : ℕ → List ℕ → BeanSystem
bean_of i raw = record {
  id = i;
  name = or_text (local_name i (inner 5 raw)) (bean_number i);
  english_name =
      or_text (english_of (local_name i (inner 5 raw)) (inner 5 raw))
        (or_text (local_name i (inner 5 raw)) (bean_number i));
  raw_bytes = length raw;
  raw_params = drop 40 (inner 5 raw);
}

unfoldable pub read_bean : ℕ → Encoded → List BeanSystem
read_bean i none = []
read_bean i (some none) =
    record {
      id = i;
      name = bean_number i;
      english_name = bean_number i;
      raw_bytes = 0;
      raw_params = [];
    }
    ∷ []
read_bean i (some (some raw)) = bean_of i raw ∷ []

-- The loop over the slots 0 to 6; `value` gives the property of a slot.
unfoldable pub beans_from : List ℕ → (ℕ → Encoded) → List BeanSystem
beans_from [] value = []
beans_from (i ∷ slots) value = read_bean i (value i) ++ beans_from slots value

unfoldable pub parse_bean_systems : (ℕ → Encoded) → List BeanSystem
parse_bean_systems value = beans_from (0 ∷ 1 ∷ 2 ∷ 3 ∷ 4 ∷ 5 ∷ 6 ∷ []) value

-- `parse_bean_system_par`: nothing, the bytes in hexadecimal with their number, or the error.
pub data BeanSystemPar : Type 0 where
  missing decode_failed : BeanSystemPar
  block : List ℕ → ℕ → BeanSystemPar

unfoldable pub parse_bean_system_par : Encoded → BeanSystemPar
parse_bean_system_par none = missing
parse_bean_system_par (some none) = decode_failed
parse_bean_system_par (some (some raw)) = block raw (length raw)
