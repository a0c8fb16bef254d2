-- ===== src/Ecam/Text.antt =====
-- Names in ECAM payloads: `_decode_utf16` and `_encode_bean_name`
-- (custom_components/delonghi_coffee/api.py). A text is the list of its code points.
pub mod Plain
pub mod RoundTrip
use delonghi_ha.Prelude.{
  ℕ, zero, suc, ◌+◌, ◌-◌, ◌*◌, ◌/◌, ◌%◌, List, [], ◌∷◌, ◌++◌, Bool, true, false, ◌&&◌, ◌||◌, ◌==◌,
  ltb, leb, length, take, replicate, map, if◌then◌else◌,
}
use delonghi_ha.Prelude.Raise.{Result, ok, raise, value_error, api, ◌>>=◌, ◌>>◌, require}
use mathlib.Core.List.{reverse}

-- The two-byte units of the data, without a last odd byte.
unfoldable pub pairs : List ℕ → List (ℕ × ℕ)
pairs [] = []
pairs (x ∷ []) = []
pairs (x ∷ y ∷ rest) = (x, y) ∷ pairs rest

unfoldable pub nulls_even : List (ℕ × ℕ) → ℕ
nulls_even [] = 0
nulls_even ((x, y) ∷ rest) = (if x == 0 then 1 else 0) + nulls_even rest

unfoldable pub nulls_odd : List (ℕ × ℕ) → ℕ
nulls_odd [] = 0
nulls_odd ((x, y) ∷ rest) = (if y == 0 then 1 else 0) + nulls_odd rest

-- The units before the first aligned pair of zero bytes.
unfoldable pub until_nul : List (ℕ × ℕ) → List (ℕ × ℕ)
until_nul [] = []
until_nul ((x, y) ∷ rest) =
    let more = (x, y) ∷ until_nul rest in if x == 0 && y == 0 then [] else more

abbrev pub is_high : ℕ → Bool
is_high u = leb 0xD800 u && leb u 0xDBFF

abbrev pub is_low : ℕ → Bool
is_low u = leb 0xDC00 u && leb u 0xDFFF

-- `bytes.decode("utf-16-…", errors="replace")` on 16-bit units: a surrogate without its partner
-- becomes U+FFFD.
unfoldable pub decode_units : List ℕ → List ℕ
decode_units [] = []
decode_units (u ∷ []) = (if is_high u || is_low u then 0xFFFD else u) ∷ []
decode_units (u ∷ v ∷ rest) =
    let paired = (0x10000 + (u - 0xD800) * 0x400 + (v - 0xDC00)) ∷ decode_units rest in
    let lone = (if is_high u || is_low u then 0xFFFD else u) ∷ decode_units (v ∷ rest) in
    if is_high u && is_low v then paired else lone

abbrev pub big_unit : ℕ × ℕ → ℕ
big_unit p = p.0 * 256 + p.1

abbrev pub little_unit : ℕ × ℕ → ℕ
little_unit p = p.1 * 256 + p.0

-- `ch == "\t" or ch == "\n" or ord(ch) >= 0x20`
unfoldable pub printable : List ℕ → List ℕ
printable [] = []
printable (c ∷ cs) = if c == 9 || (c == 10 || leb 0x20 c) then c ∷ printable cs else printable cs

-- `str.isspace` of one character.
abbrev pub is_space : ℕ → Bool
is_space c =
    (leb 9 c && leb c 13)
    || ((leb 0x1C c && leb c 0x20)
        || (c == 0x85
            || (c == 0xA0
                || (c == 0x1680
                    || ((leb 0x2000 c && leb c 0x200A)
                        || (c == 0x2028
                            || (c == 0x2029 || (c == 0x202F || (c == 0x205F || c == 0x3000)))))))))

unfoldable pub lstrip : List ℕ → List ℕ
lstrip [] = []
lstrip (c ∷ cs) = let rest = lstrip cs in if is_space c then rest else c ∷ cs

-- `str.strip()`
unfoldable pub strip : List ℕ → List ℕ
unfolding lstrip
strip s = reverse (lstrip (reverse (lstrip s)))

-- The sample of at most 20 bytes is the first ten units.
unfoldable pub decode_utf16 : List ℕ → List ℕ
decode_utf16 bytes =
    let units = pairs bytes in
    let sample = take 10 units in
    let truncated = until_nul units in
    let codes =
      if leb (nulls_odd sample) (nulls_even sample)
      then map big_unit truncated
      else map little_unit truncated in
    if ltb (length bytes) 2 then [] else strip (printable (decode_units codes))

-- The bytes of one code point. A lone surrogate raises UnicodeEncodeError, which is a ValueError.
unfoldable pub encode_code : ℕ → Result (List ℕ)
encode_code c =
    let high = 0xD800 + (c - 0x10000) / 0x400 in
    let low = 0xDC00 + (c - 0x10000) % 0x400 in
    if is_high c || is_low c
    then raise value_error
    else if ltb c 0x10000
    then ok (c / 256 ∷ c % 256 ∷ [])
    else ok (high / 256 ∷ high % 256 ∷ low / 256 ∷ low % 256 ∷ [])

-- `name.encode("utf-16-be")`
unfoldable pub encode_utf16 : List ℕ → Result (List ℕ)
encode_utf16 [] = ok []
encode_utf16 (c ∷ cs) = encode_code c >>= λ unit. encode_utf16 cs >>= λ rest. ok (unit ++ rest)

-- `_encode_bean_name`; the name field has BEAN_NAME_MAX_BYTES = 40 bytes.
unfoldable pub encode_bean_name : List ℕ → Result (List ℕ)
encode_bean_name name = do
  encoded ← encode_utf16 name
  require (leb (length encoded) 40) api
  ok (encoded ++ replicate (40 - length encoded) 0)
