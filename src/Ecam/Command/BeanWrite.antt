-- ===== src/Ecam/Command/BeanWrite.antt =====
-- The command that writes a bean profile.
use delonghi_ha.Prelude.{
  ℕ, zero, suc, ◌+◌, ◌-◌, ◌*◌, ◌<◌, ◌≤◌, List, [], ◌∷◌, ◌++◌, Bool, true, false, ◌≡◌, refl, sym, ap,
  ◌∙◌, arith, All, All-append, length, length-append, take, drop, map, replicate, append_assoc,
  take-append_length, Bool-cases, inl, inr, ◌&&◌, leb, if◌then◌else◌,
}
use delonghi_ha.Prelude.Int.{ℤ, pos, between, between_pos, IsByte, to_byte}
use delonghi_ha.Prelude.Raise.{Result, ok, raise, api, Exception, ◌>>=◌, ◌>>◌, require}
use delonghi_ha.Ecam.Crc.{crc16}
use delonghi_ha.Ecam.Frame.{seal, IsFrame}
use delonghi_ha.Ecam.Frame.Laws.{seal-IsFrame, length-seal}
use delonghi_ha.Ecam.Text.{encode_bean_name, decode_utf16}
use delonghi_ha.Ecam.Text.Plain.{IsPlain, flat}
use delonghi_ha.Ecam.Text.RoundTrip.{
  field, length-field, read_back, encode_bean_name-plain, decode_utf16-field,
}
use delonghi_ha.Ecam.Command.{Bean, bean_guards, bean_payload, bean_write_body, bean_write_command}

-- The ranges of a bean profile's settings.
abbrev pub in_range : Bean → Bool
in_range b =
    between 1 b.slot 7
    && (between 0 b.temperature 0xFF
        && (between 0 b.intensity 0xFF
            && (between 0 b.grinder 0xFF && (between 0 b.flag1 1 && between 0 b.flag2 1))))

six_guards :
    (t1 t2 t3 t4 t5 t6 : Bool) (e : Exception)
    → (require t1 e
        >> (require t2 e >> (require t3 e >> (require t4 e >> (require t5 e >> require t6 e)))))
      ≡ (if t1 && (t2 && (t3 && (t4 && (t5 && t6)))) then ok tt else raise e)
six_guards t1 t2 t3 t4 t5 t6 e = ground arith

six_true :
    (t1 t2 t3 t4 t5 t6 : Bool)
    → t1 && (t2 && (t3 && (t4 && (t5 && t6)))) ≡ true
    → (t1 ≡ true) × (t2 ≡ true) × (t3 ≡ true) × (t4 ≡ true) × (t5 ≡ true) × (t6 ≡ true)
six_true t1 t2 t3 t4 t5 t6 h = ground arith

bean_guards_lem : (b : Bean) → bean_guards b ≡ (if in_range b then ok tt else raise api)
unfolding bean_guards
bean_guards_lem b =
    six_guards (between 1 b.slot 7) (between 0 b.temperature 0xFF) (between 0 b.intensity 0xFF)
      (between 0 b.grinder 0xFF) (between 0 b.flag1 1) (between 0 b.flag2 1) api

-- The frame with the bytes in place.
abbrev pub write_frame : ℕ → List ℕ → ℕ → ℕ → ℕ → ℕ → ℕ → List ℕ
write_frame slot name_bytes temperature intensity grinder flag1 flag2 = seal (
    0x0D
    ∷ 50
    ∷ 0xBB
    ∷ slot
    ∷ (name_bytes ++ temperature ∷ intensity ∷ grinder ∷ flag1 ∷ flag2 ∷ []))

in_byte : (n : ℕ) → n < 256 → to_byte (pos n) ≡ ok n
in_byte n h = ground arith

payload_bytes :
    (s t i g f1 f2 : ℕ) (name name_bytes : List ℕ)
    → s < 256
    → t < 256
    → i < 256
    → g < 256
    → f1 < 256
    → f2 < 256
    → encode_bean_name name ≡ ok name_bytes
    → length name_bytes ≡ 40
    → bean_payload (pos s) name (pos t) (pos i) (pos g) (pos f1) (pos f2)
      ≡ ok (0x0D ∷ 50 ∷ 0xBB ∷ s ∷ (name_bytes ++ t ∷ i ∷ g ∷ f1 ∷ f2 ∷ []))
unfolding bean_payload
payload_bytes s t i g f1 f2 name name_bytes hs ht hi hg h1 h2 e l =
    rw (e, in_byte s hs, in_byte t ht, in_byte i hi, in_byte g hg, in_byte f1 h1, in_byte f2 h2)
      (rw total)
  where
    total : length (s ∷ (name_bytes ++ t ∷ i ∷ g ∷ f1 ∷ f2 ∷ [])) + 4 ≡ 50
    total = omega (arith, length-append {0} name_bytes (t ∷ i ∷ g ∷ f1 ∷ f2 ∷ []))

field-IsByte :
    (name : List ℕ) → All IsPlain name → (k : ℕ) → All IsByte (flat name ++ replicate k 0)
field-IsByte [] h zero = tt
field-IsByte [] h (suc k) = (omega arith, field-IsByte [] h k)
field-IsByte (c ∷ cs) h k = (omega (arith, h.0), (omega arith, field-IsByte cs h.1 k))

-- The settings as they follow the name.
abbrev pub settings : Bean → List ℤ
settings b = b.temperature ∷ b.intensity ∷ b.grinder ∷ b.flag1 ∷ b.flag2 ∷ []

-- The settings of the bean as they stand in the frame: the slot after the command's number, and the
-- others after the 40 bytes of the name.
abbrev pub HoldsSettings : ℤ → List ℤ → List ℕ → Type 0
HoldsSettings slot given cmd =
    (take 3 cmd ≡ 0x0D ∷ 50 ∷ 0xBB ∷ [])
    × (map pos (take 1 (drop 3 cmd)) ≡ slot ∷ [])
    × (map pos (take 5 (drop 44 cmd)) ≡ given)

-- A frame of 51 bytes whose name field decodes to `read_back` of the name.
abbrev pub Carries : List ℕ → List ℕ → Type 0
Carries name cmd =
    IsFrame cmd × (length cmd ≡ 51) × (decode_utf16 (take 40 (drop 4 cmd)) ≡ read_back name)

name_at_four :
    (s : ℕ) (name_bytes tail : List ℕ)
    → length name_bytes ≡ 40
    → take 40 (drop 4 (seal (0x0D ∷ 50 ∷ 0xBB ∷ s ∷ (name_bytes ++ tail)))) ≡ name_bytes
unfolding seal
name_at_four s name_bytes tail l =
    let crc = crc16 (0x0D ∷ 50 ∷ 0xBB ∷ s ∷ (name_bytes ++ tail)) in
    ap (take 40) (append_assoc name_bytes tail crc)
    ∙ ap (λ n. take n (name_bytes ++ (tail ++ crc))) (sym l)
    ∙ take-append_length name_bytes (tail ++ crc)

five_at : (xs ys zs : List ℕ) → length ys ≡ 5 → take 5 (drop (length xs) (xs ++ (ys ++ zs))) ≡ ys
five_at [] ys zs h = ap (λ n. take n (ys ++ zs)) (sym h) ∙ take-append_length ys zs
five_at (x ∷ xs) ys zs h = five_at xs ys zs h

settings_at :
    (s : ℕ) (name_bytes tail : List ℕ)
    → length name_bytes ≡ 40
    → length tail ≡ 5
    → take 5 (drop 44 (seal (0x0D ∷ 50 ∷ 0xBB ∷ s ∷ (name_bytes ++ tail)))) ≡ tail
unfolding seal
settings_at s name_bytes tail l k =
    let crc = crc16 (0x0D ∷ 50 ∷ 0xBB ∷ s ∷ (name_bytes ++ tail)) in
    ap (λ xs. take 5 (drop 40 xs)) (append_assoc name_bytes tail crc)
    ∙ ap (λ n. take 5 (drop n (name_bytes ++ (tail ++ crc)))) (sym l)
    ∙ five_at name_bytes tail crc k

write_frame-HoldsSettings :
    (s t i g f1 f2 : ℕ) (name_bytes : List ℕ)
    → length name_bytes ≡ 40
    → HoldsSettings
        (pos s)
        (pos t ∷ pos i ∷ pos g ∷ pos f1 ∷ pos f2 ∷ [])
        (write_frame s name_bytes t i g f1 f2)
unfolding seal
write_frame-HoldsSettings s t i g f1 f2 name_bytes l =
    (refl, refl, ap (map pos) (settings_at s name_bytes (t ∷ i ∷ g ∷ f1 ∷ f2 ∷ []) l refl))

write_frame-Carries :
    (s t i g f1 f2 : ℕ) (name : List ℕ)
    → s < 256
    → t < 256
    → i < 256
    → g < 256
    → f1 < 256
    → f2 < 256
    → All IsPlain name
    → length name ≤ 20
    → Carries name (write_frame s (field name) t i g f1 f2)
write_frame-Carries s t i g f1 f2 name hs ht hi hg h1 h2 plain short = (
  seal-IsFrame 50 _ (omega (arith, length-append {0} (field name) tail, length-field name short))
      (omega arith)
      (
        omega arith,
        (
          hs,
          All-append IsByte (field name) tail (field-IsByte name plain (2 * (20 - length name)))
              (omega arith),
        ),
      ),
  omega (
    arith,
    length-seal (0x0D ∷ 50 ∷ 0xBB ∷ s ∷ (field name ++ tail)),
    length-append {0} (field name) tail,
    length-field name short,
  ),
  ap decode_utf16 (name_at_four s (field name) tail (length-field name short))
      ∙ decode_utf16-field name plain short,
)
  where
    tail : List ℕ
    tail = t ∷ i ∷ g ∷ f1 ∷ f2 ∷ []

-- A command that carries the name and the settings is built, or else DeLonghiApiError is raised.
abbrev pub Writes : Bool → ℤ → List ℕ → List ℤ → Result (List ℕ) → Type 0
Writes true slot name given r =
    (cmd : List ℕ) × (r ≡ ok cmd) × Carries name cmd × HoldsSettings slot given cmd
Writes false slot name given r = r ≡ raise api

payload_too_long :
    (slot temperature intensity grinder flag1 flag2 : ℤ) (name : List ℕ) (e : Exception)
    → encode_bean_name name ≡ raise e
    → bean_payload slot name temperature intensity grinder flag1 flag2 ≡ raise e
unfolding bean_payload
payload_too_long slot temperature intensity grinder flag1 flag2 name e h = rw h

sealed_bytes :
    (s t i g f1 f2 : ℕ) (name : List ℕ)
    → All IsPlain name
    → s ≤ 7
    → t ≤ 255
    → i ≤ 255
    → g ≤ 255
    → f1 ≤ 1
    → f2 ≤ 1
    → Writes (leb (length name) 20) (pos s) name (pos t ∷ pos i ∷ pos g ∷ pos f1 ∷ pos f2 ∷ []) (
        bean_payload (pos s) name (pos t) (pos i) (pos g) (pos f1) (pos f2) >>= λ body.
        ok (seal body))
sealed_bytes s t i g f1 f2 name plain hs ht hi hg h1 h2 = elim (Bool-cases (leb (length name) 20)) [
  | inl short ↦
      let l : length name ≤ 20 = ground arith in
      let encoded : encode_bean_name name ≡ ok (field name) =
        encode_bean_name-plain name plain ∙ rw short in
      rw
        (
          short,
          payload_bytes s t i g f1 f2 name (field name) (omega arith) (omega arith) (omega arith)
              (omega arith) (omega arith) (omega arith) encoded (length-field name l),
        )
        (
          write_frame s (field name) t i g f1 f2,
          refl,
          write_frame-Carries s t i g f1 f2 name (omega arith) (omega arith) (omega arith)
              (omega arith) (omega arith) (omega arith) plain l,
          write_frame-HoldsSettings s t i g f1 f2 (field name) (length-field name l),
        )
  | inr long ↦ rw (
    long,
    payload_too_long (pos s) (pos t) (pos i) (pos g) (pos f1) (pos f2) name api
        (encode_bean_name-plain name plain ∙ rw long),
  )
]

sealed_payload :
    (b : Bean)
    → All IsPlain b.name
    → in_range b ≡ true
    → Writes (leb (length b.name) 20) b.slot b.name (settings b) (
        bean_payload b.slot b.name b.temperature b.intensity b.grinder b.flag1 b.flag2 >>= λ body.
        ok (seal body))
sealed_payload b plain h =
    let passed =
      six_true (between 1 b.slot 7) (between 0 b.temperature 0xFF) (between 0 b.intensity 0xFF)
        (between 0 b.grinder 0xFF) (between 0 b.flag1 1) (between 0 b.flag2 1) h in
    let (s, es, _, hs) = between_pos 1 b.slot 7 passed.0 in
    let (t, et, _, ht) = between_pos 0 b.temperature 0xFF passed.1 in
    let (i, ei, _, hi) = between_pos 0 b.intensity 0xFF passed.2 in
    let (g, eg, _, hg) = between_pos 0 b.grinder 0xFF passed.3 in
    let (f1, e1, _, h1) = between_pos 0 b.flag1 1 passed.4 in
    let (f2, e2, _, h2) = between_pos 0 b.flag2 1 passed.5 in
    rw (es, et, ei, eg, e1, e2) (sealed_bytes s t i g f1 f2 b.name plain hs ht hi hg h1 h2)

-- For a plain name the write command is built exactly when every setting is in its range and the name
-- has at most twenty characters. It is then a frame of 51 bytes: the start, the length 50, the command
-- 0xBB, the slot, 40 bytes of the name, and the temperature, the intensity, the grinder and the two flags,
-- in this order, before the checksum. The name field decodes to what the decoder of `RoundTrip` reads for
-- that name: the name without the blanks around it, or with the bytes of each character swapped where the
-- decoder takes the other byte order. Otherwise DeLonghiApiError is raised.
pub bean_write_command_lem :
    (b : Bean)
    → All IsPlain b.name
    → Writes
        (in_range b && leb (length b.name) 20)
        b.slot
        b.name
        (settings b)
        (bean_write_command b)
unfolding bean_write_command bean_write_body
bean_write_command_lem b plain = elim (Bool-cases (in_range b)) [
  | inl h ↦ rw (bean_guards_lem b, h) (sealed_payload b plain h)
  | inr h ↦ rw (bean_guards_lem b, h)
]
