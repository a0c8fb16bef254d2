-- ===== src/Model/Laws.antt =====
-- What is read of a serial number in the binary layout (api.py).
use delonghi_ha.Prelude.{
  ◌≡◌, sym, ap, ◌∙◌, ℕ, ◌-◌, List, [], ◌∷◌, ◌++◌, Bool, true, false, not, ◌||◌, ltb, length, take,
  drop, Option, none, some, if◌then◌else◌, arith, append-nil, append_assoc, length-append,
  take-append_length, drop-append_length,
}
use delonghi_ha.Model.Serial.{
  is_base64_text, serial_shape, fits, search_serial, serial_of, found_payload, decoded_serial,
  try_decode_binary_serial, or_plaintext, parse_serial_number,
}

take-at : (n : ℕ) (xs ys : List ℕ) → length xs ≡ n → take n (xs ++ ys) ≡ xs
take-at n xs ys e = ap (λ (m : ℕ). take m (xs ++ ys)) (sym e) ∙ take-append_length xs ys

drop-at : (n : ℕ) (xs ys : List ℕ) → length xs ≡ n → drop n (xs ++ ys) ≡ ys
drop-at n xs ys e = ap (λ (m : ℕ). drop m (xs ++ ys)) (sym e) ∙ drop-append_length xs ys

search_serial-here :
    (payload : List ℕ)
    → length payload ≡ 19
    → fits serial_shape payload ≡ true
    → search_serial payload ≡ some payload
unfolding search_serial
search_serial-here [] n h = absurd (omega (arith, n))
search_serial-here (b ∷ bytes) n h =
    ap (λ (t : Bool). if t then some (take 19 (b ∷ bytes)) else search_serial bytes) h
    ∙ ap some (ap (take 19) (sym (append-nil (b ∷ bytes))) ∙ take-at 19 (b ∷ bytes) [] n)

between_ends :
    (header payload trailer : List ℕ)
    → length header ≡ 6
    → length trailer ≡ 3
    → drop 6 (take (length (header ++ (payload ++ trailer)) - 3) (header ++ (payload ++ trailer)))
      ≡ payload
between_ends header payload trailer h t =
    ap (λ (xs : List ℕ). drop 6 (take (length xs - 3) xs))
      (sym (append_assoc header payload trailer))
    ∙ ap (drop 6) (
        take-at (length ((header ++ payload) ++ trailer) - 3) (header ++ payload) trailer
          (omega (arith, t, length-append (header ++ payload) trailer)))
    ∙ drop-at 6 header payload h

-- A text of base64, of at least 28 characters, that decodes to six bytes, a payload of the shape of a
-- serial number, and three bytes, is read as the fields of the payload if the date in it is one, and
-- else as a text with its digits.
pub parse_serial_number-binary :
    (decode : List ℕ → Option (List ℕ)) (is_digit : ℕ → Bool) (c : ℕ)
    (value header payload trailer : List ℕ)
    → (ltb (length (c ∷ value)) 28 || not (is_base64_text (c ∷ value))) ≡ false
    → decode (c ∷ value) ≡ some (header ++ (payload ++ trailer))
    → length header ≡ 6
    → length payload ≡ 19
    → length trailer ≡ 3
    → fits serial_shape payload ≡ true
    → parse_serial_number decode is_digit (some (c ∷ value))
      ≡ or_plaintext decode is_digit (c ∷ value) (serial_of (c ∷ value) payload)
unfolding parse_serial_number try_decode_binary_serial
parse_serial_number-binary decode is_digit c value header payload trailer text decoded h p t shape =
    ap (or_plaintext decode is_digit (c ∷ value)) (
      ap
        (λ (b : Bool).
          if b then none else decoded_serial decode is_digit (c ∷ value) (decode (c ∷ value)))
        text
      ∙ ap (decoded_serial decode is_digit (c ∷ value)) decoded
      ∙ ap
          (λ (b : Bool).
            if b then none else found_payload decode is_digit (c ∷ value) (search_serial slice))
          enough
      ∙ ap (λ (xs : List ℕ). found_payload decode is_digit (c ∷ value) (search_serial xs))
          (between_ends header payload trailer h t)
      ∙ ap (found_payload decode is_digit (c ∷ value)) (search_serial-here payload p shape))
  where
    slice : List ℕ
    slice =
        drop 6 (take (length (header ++ (payload ++ trailer)) - 3) (header ++ (payload ++ trailer)))

    enough : ltb (length (header ++ (payload ++ trailer))) 28 ≡ false
    enough =
        ground
          (arith, h, p, t, length-append header (payload ++ trailer), length-append payload trailer)
