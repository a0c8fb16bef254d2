-- ===== src/Stored/Laws.antt =====
-- What is read of a payload in the layout of the machine (`parse_profiles` and `parse_bean_systems`, api.py).
use delonghi_ha.Prelude.{
  ◌≡◌, refl, sym, ap, ap₂, ◌∙◌, ℕ, zero, suc, ◌+◌, ◌-◌, List, [], ◌∷◌, ◌++◌, leb, length, take,
  drop, get_or, some, arith, length-append, append_assoc, append-nil, take-append_length,
  drop-append_length, if_rule,
}
use delonghi_ha.Ecam.Text.{decode_utf16}
use delonghi_ha.Stored.{
  inner, Profile, profile, slot, profiles_1_3, BeanSystem, bean_number, or_text, local_name,
  english_of, bean_of, read_bean,
}

drop-at : (n : ℕ) (xs ys : List ℕ) → length xs ≡ n → drop n (xs ++ ys) ≡ ys
drop-at n xs ys e = ap (λ (m : ℕ). drop m (xs ++ ys)) (sym e) ∙ drop-append_length xs ys

take-at : (n : ℕ) (xs ys : List ℕ) → length xs ≡ n → take n (xs ++ ys) ≡ xs
take-at n xs ys e = ap (λ (m : ℕ). take m (xs ++ ys)) (sym e) ∙ take-append_length xs ys

-- Between a header of `n` bytes and the checksum.
inner_lem :
    (n : ℕ) (header body crc : List ℕ)
    → length header ≡ n
    → length crc ≡ 2
    → inner n (header ++ (body ++ crc)) ≡ body
unfolding inner
inner_lem n header body crc h c =
    ap (λ (xs : List ℕ). drop n (take (length xs - 2) xs)) (sym (append_assoc header body crc))
    ∙ ap (drop n) (
        take-at (length ((header ++ body) ++ crc) - 2) (header ++ body) crc
          (omega (arith, c, length-append (header ++ body) crc)))
    ∙ drop-at n header body h

-- The entry for two names and the bytes after them.
abbrev pub bean : ℕ → ℕ → List ℕ → List ℕ → List ℕ → BeanSystem
bean i size local english params = record {
  id = i;
  name = or_text local (bean_number i);
  english_name = or_text english (or_text local (bean_number i));
  raw_bytes = size;
  raw_params = params;
}

module _ (i : ℕ) (header local english params crc : List ℕ) (h : length header ≡ 5)
    (c : length crc ≡ 2) (l : length local ≡ 20) (e : length english ≡ 20) where
  abbrev body : List ℕ
  body = local ++ (english ++ params)

  abbrev pub bean_value : List ℕ
  bean_value = header ++ (body ++ crc)

  body_is : inner 5 bean_value ≡ body
  body_is = inner_lem 5 header body crc h c

  local_is : local_name i body ≡ decode_utf16 local
  unfolding local_name
  local_is =
      if_rule (λ (name : List ℕ). name ≡ decode_utf16 local) (leb 20 (length body))
        (λ long. ap decode_utf16 (take-at 20 local (english ++ params) l))
        (λ short. absurd (ground (arith, short, l, length-append local (english ++ params))))

  english_is : (name : List ℕ) → english_of name body ≡ decode_utf16 english
  unfolding english_of
  english_is name =
      if_rule (λ (text : List ℕ). text ≡ decode_utf16 english) (leb 40 (length body))
        (λ long.
          ap decode_utf16
            (ap (take 20) (drop-at 20 local (english ++ params) l) ∙ take-at 20 english params e))
        (λ short. absurd (
          ground (
            arith,
            short,
            l,
            e,
            length-append local (english ++ params),
            length-append english params,
          )))

  params_are : drop 40 body ≡ params
  params_are =
      ap (drop 40) (sym (append_assoc local english params))
      ∙ drop-at 40 (local ++ english) params (omega (arith, l, e, length-append local english))

  -- A payload of five bytes, two fields of twenty bytes for the names, any parameters and a
  -- checksum of two bytes is read as one entry: the two names as they decode, each with its
  -- replacement where that is empty, the parameters, and the length of it all.
  pub read_bean_lem :
      read_bean i (some (some bean_value))
      ≡ bean i (length bean_value) (decode_utf16 local) (decode_utf16 english) params ∷ []
  unfolding read_bean bean_of
  read_bean_lem =
      ap
        (λ (xs : List ℕ).
          bean i (length bean_value) (local_name i xs) (english_of (local_name i xs) xs)
            (drop 40 xs)
          ∷ [])
        body_is
      ∙ ap
          (λ (name : List ℕ).
            bean i (length bean_value) name (english_of name body) (drop 40 body) ∷ [])
          local_is
      ∙ ap
          (λ (name : List ℕ).
            bean i (length bean_value) (decode_utf16 local) name (drop 40 body) ∷ [])
          (english_is (decode_utf16 local))
      ∙ ap
          (λ (xs : List ℕ).
            bean i (length bean_value) (decode_utf16 local) (decode_utf16 english) xs ∷ [])
          params_are

-- A profile behind some bytes.
slot_lem :
    (number offset : ℕ) (before name : List ℕ) (icon : ℕ) (rest : List ℕ)
    → length before ≡ offset
    → length name ≡ 20
    → slot number offset (before ++ (name ++ (icon ∷ rest)))
      ≡ (number, profile (decode_utf16 name) icon) ∷ []
unfolding slot
slot_lem number offset before name icon rest b n =
    if_rule (λ (out : List (ℕ × Profile)). out ≡ (number, profile (decode_utf16 name) icon) ∷ [])
      (leb (offset + 20) (length (before ++ (name ++ (icon ∷ rest)))))
      (λ long.
        ap₂ (λ (text : List ℕ) (i : ℕ). (number, profile (decode_utf16 text) i) ∷ [])
          (ap (take 20) (drop-at offset before _ b) ∙ take-at 20 name (icon ∷ rest) n)
          (icon_at offset before b))
      (λ short. absurd (
        ground (
          arith,
          short,
          b,
          n,
          length-append before (name ++ (icon ∷ rest)),
          length-append name (icon ∷ rest),
        )))
  where
    get_or-at : (xs ys : List ℕ) (y m : ℕ) → length xs ≡ m → get_or (xs ++ (y ∷ ys)) m 0 ≡ y
    get_or-at [] ys y zero q = refl
    get_or-at [] ys y (suc m) q = absurd (omega (arith, q))
    get_or-at (x ∷ xs) ys y zero q = absurd (omega (arith, q))
    get_or-at (x ∷ xs) ys y (suc m) q = get_or-at xs ys y m (omega (arith, q))

    icon_at :
        (m : ℕ) (xs : List ℕ)
        → length xs ≡ m
        → get_or (xs ++ (name ++ (icon ∷ rest))) (m + 20) 0 ≡ icon
    icon_at m xs q =
        ap (λ (zs : List ℕ). get_or zs (m + 20) 0) (sym (append_assoc xs name (icon ∷ rest)))
        ∙ get_or-at (xs ++ name) rest icon (m + 20) (omega (arith, q, n, length-append xs name))

-- The 22 bytes of a profile.
abbrev pub field : List ℕ → ℕ → ℕ → List ℕ
field name icon meta = name ++ (icon ∷ meta ∷ [])

length-field :
    (name : List ℕ) (icon meta : ℕ) → length name ≡ 20 → length (field name icon meta) ≡ 22
length-field name icon meta n = omega (arith, n, length-append name (icon ∷ meta ∷ []))

field_slot :
    (number offset : ℕ) (before name : List ℕ) (icon meta : ℕ) (rest : List ℕ)
    → length before ≡ offset
    → length name ≡ 20
    → slot number offset (before ++ (field name icon meta ++ rest))
      ≡ (number, profile (decode_utf16 name) icon) ∷ []
field_slot number offset before name icon meta rest b n =
    ap (λ (xs : List ℕ). slot number offset (before ++ xs))
      (append_assoc name (icon ∷ meta ∷ []) rest)
    ∙ slot_lem number offset before name icon (meta ∷ rest) b n

module _ (header crc name_1 name_2 name_3 : List ℕ)
    (icon_1 meta_1 icon_2 meta_2 icon_3 meta_3 : ℕ) where
  abbrev fields : List ℕ
  fields = field name_1 icon_1 meta_1 ++ (field name_2 icon_2 meta_2 ++ field name_3 icon_3 meta_3)

  -- A payload of six bytes, three fields of 22 bytes and a checksum of two bytes is read as the
  -- three profiles, each with its name as it decodes, and the colour and the figure of its icon.
  pub profiles_1_3_lem :
      length header ≡ 6
      → length crc ≡ 2
      → length name_1 ≡ 20
      → length name_2 ≡ 20
      → length name_3 ≡ 20
      → profiles_1_3 (some (some (header ++ (fields ++ crc))))
        ≡ (1, profile (decode_utf16 name_1) icon_1)
          ∷ (2, profile (decode_utf16 name_2) icon_2)
          ∷ (3, profile (decode_utf16 name_3) icon_3)
          ∷ []
  unfolding profiles_1_3
  profiles_1_3_lem h c n1 n2 n3 =
      ap (λ (xs : List ℕ). slot 1 0 xs ++ (slot 2 22 xs ++ slot 3 44 xs))
        (inner_lem 6 header fields crc h c)
      ∙ ap₂ (λ xs ys. xs ++ ys) (field_slot 1 0 [] name_1 icon_1 meta_1 _ refl n1)
          (ap₂ (λ xs ys. xs ++ ys)
            (field_slot 2 22 (field name_1 icon_1 meta_1) name_2 icon_2 meta_2 _
              (length-field name_1 icon_1 meta_1 n1) n2)
            third)
    where
      third : slot 3 44 fields ≡ (3, profile (decode_utf16 name_3) icon_3) ∷ []
      third =
          ap (slot 3 44) (
            sym (
              append_assoc (field name_1 icon_1 meta_1) (field name_2 icon_2 meta_2)
                (field name_3 icon_3 meta_3))
            ∙ ap (λ (xs : List ℕ). (field name_1 icon_1 meta_1 ++ field name_2 icon_2 meta_2) ++ xs)
                (sym (append-nil (field name_3 icon_3 meta_3))))
          ∙ field_slot 3 44 (field name_1 icon_1 meta_1 ++ field name_2 icon_2 meta_2) name_3 icon_3
              meta_3 []
              (omega (
                arith,
                length-append (field name_1 icon_1 meta_1) (field name_2 icon_2 meta_2),
                length-field name_1 icon_1 meta_1 n1,
                length-field name_2 icon_2 meta_2 n2,
              ))
              n3
