-- ===== src/Model/Serial.antt =====
-- The serial number: `parse_serial_number` and `_try_decode_binary_serial` (custom_components/delonghi_coffee/api.py).
use delonghi_ha.Prelude.{
  ℕ, ◌+◌, ◌-◌, ◌*◌, ◌%◌, List, [], ◌∷◌, ◌++◌, Bool, true, false, not, ◌&&◌, ◌||◌, ◌==◌, ltb, leb,
  length, take, drop, Option, none, some, if◌then◌else◌,
}

pub record Serial : Type 0 where
  pub raw : List ℕ
  pub digits : List ℕ
  pub sku : List ℕ
  pub execution : List ℕ
  pub year : ℕ
  pub month : ℕ
  pub day : ℕ
  pub letter : List ℕ
  pub production : List ℕ

pub data SerialInfo : Type 0 where
  binary : Serial → SerialInfo
  plaintext : List ℕ → List ℕ → SerialInfo

abbrev pub ascii_digit : ℕ → Bool
ascii_digit c = leb 0x30 c && leb c 0x39

abbrev pub upper_or_digit : ℕ → Bool
upper_or_digit c = ascii_digit c || (leb 0x41 c && leb c 0x5A)

-- `[A-Za-z0-9+/]`
abbrev pub is_base64 : ℕ → Bool
is_base64 c = upper_or_digit c || ((leb 0x61 c && leb c 0x7A) || (c == 0x2B || c == 0x2F))

-- `={0,2}` and the end.
abbrev pub is_padding : List ℕ → Bool
is_padding [] = true
is_padding (c ∷ []) = c == 0x3D
is_padding (c ∷ d ∷ []) = (c == 0x3D) && (d == 0x3D)
is_padding (c ∷ d ∷ e ∷ rest) = false

unfoldable pub base64_tail : List ℕ → Bool
base64_tail [] = true
base64_tail (c ∷ text) =
    let later = base64_tail text in (is_base64 c && later) || is_padding (c ∷ text)

-- `re.fullmatch(r"[A-Za-z0-9+/]+={0,2}", value)`
unfoldable pub is_base64_text : List ℕ → Bool
is_base64_text [] = false
is_base64_text (c ∷ text) = is_base64 c && base64_tail text

-- `_BINARY_SERIAL_RE`, a test for each byte, and its search.
abbrev pub serial_shape : List (ℕ → Bool)
serial_shape =
    ascii_digit ∷ ascii_digit ∷ ascii_digit ∷ ascii_digit ∷ ascii_digit ∷ ascii_digit
    ∷ upper_or_digit ∷ upper_or_digit ∷ ascii_digit ∷ ascii_digit ∷ ascii_digit ∷ ascii_digit
    ∷ ascii_digit ∷ ascii_digit ∷ upper_or_digit ∷ ascii_digit ∷ ascii_digit ∷ ascii_digit
    ∷ ascii_digit ∷ []

unfoldable pub fits : List (ℕ → Bool) → List ℕ → Bool
fits [] bytes = true
fits (test ∷ shape) [] = false
fits (test ∷ shape) (b ∷ bytes) = test b && fits shape bytes

unfoldable pub search_serial : List ℕ → Option (List ℕ)
search_serial [] = none
search_serial (b ∷ bytes) =
    let later = search_serial bytes in
    if fits serial_shape (b ∷ bytes) then some (take 19 (b ∷ bytes)) else later

-- `int()` of ASCII digits.
unfoldable pub value_from : ℕ → List ℕ → ℕ
value_from n [] = n
value_from n (c ∷ digits) = value_from (n * 10 + (c - 0x30)) digits

-- `date(year, month, day)` for the years 2000 to 2099, in which every fourth has a 29 February.
abbrev pub days_in : ℕ → ℕ → ℕ
days_in year month =
    if month == 2
    then (if year % 4 == 0 then 29 else 28)
    else if (month == 4 || month == 6) || (month == 9 || month == 11)
    then 30
    else 31

unfoldable pub is_date : ℕ → ℕ → ℕ → Bool
is_date year month day =
    (leb 1 month && leb month 12) && (leb 1 day && leb day (days_in year month))

abbrev pub part : ℕ → ℕ → List ℕ → List ℕ
part from size payload = take size (drop from payload)

-- The fields of a payload of 19 bytes, if its date is one.
unfoldable pub serial_of : List ℕ → List ℕ → Option SerialInfo
serial_of value payload =
    let year = 2000 + value_from 0 (part 8 2 payload) in
    let month = value_from 0 (part 10 2 payload) in
    let day = value_from 0 (part 12 2 payload) in
    if is_date year month day
    then some (
        binary (record {
          raw = value;
          digits =
              part 0 6 payload
              ++ (part 8 2 payload
                  ++ (part 10 2 payload ++ (part 12 2 payload ++ part 15 4 payload)));
          sku = part 0 6 payload;
          execution = part 6 2 payload;
          year = year;
          month = month;
          day = day;
          letter = part 14 1 payload;
          production = part 15 4 payload;
        }))
    else none

-- `decode` is `base64.b64decode` with `validate`, none where it raises; `is_digit` is `\d` of a text.
module _ (decode : List ℕ → Option (List ℕ)) (is_digit : ℕ → Bool) where
  abbrev pub found_payload : List ℕ → Option (List ℕ) → Option SerialInfo
  found_payload value none = none
  found_payload value (some payload) = serial_of value payload

  -- Behind the header of 6 bytes and before the trailer of 3.
  abbrev pub decoded_serial : List ℕ → Option (List ℕ) → Option SerialInfo
  decoded_serial value none = none
  decoded_serial value (some decoded) =
      if ltb (length decoded) 28
      then none
      else found_payload value (search_serial (drop 6 (take (length decoded - 3) decoded)))

  unfoldable pub try_decode_binary_serial : List ℕ → Option SerialInfo
  try_decode_binary_serial value =
      if ltb (length value) 28 || not (is_base64_text value)
      then none
      else decoded_serial value (decode value)

  unfoldable pub digits_in : List ℕ → List ℕ
  digits_in [] = []
  digits_in (c ∷ text) = let more = digits_in text in if is_digit c then c ∷ more else more

  abbrev pub or_plaintext : List ℕ → Option SerialInfo → Option SerialInfo
  or_plaintext value (some info) = some info
  or_plaintext value none = some (plaintext value (digits_in value))

  unfoldable pub parse_serial_number : Option (List ℕ) → Option SerialInfo
  parse_serial_number none = none
  parse_serial_number (some []) = none
  parse_serial_number (some (c ∷ value)) =
      or_plaintext (c ∷ value) (try_decode_binary_serial (c ∷ value))

abbrev pub digits_of : Option SerialInfo → Option (List ℕ)
digits_of none = none
digits_of (some (binary s)) = some s.digits
digits_of (some (plaintext raw digits)) = some digits
