-- ===== src/Ecam/Crc/Detect.antt =====
-- What the checksum detects: a frame with its checksum leaves the register at zero, and two bodies
-- that differ in one byte have different checksums.
use delonghi_ha.Prelude.{
  ℕ, zero, suc, ◌+◌, ◌*◌, ◌/◌, ◌%◌, ◌^◌, ◌<◌, bit_xor, List, [], ◌∷◌, ◌++◌, ◌≡◌, ◌≢◌, ◌↔◌, sym, ap,
  ap₂, ◌∙◌, arith,
}
use delonghi_ha.Prelude.Bits.{
  bit_xor-zero, bit_xor_self, bit_xor_step, bit_xor_cancel, bit_xor_comm, bit_xor_high, bit_xor-lt,
}
use delonghi_ha.Ecam.Crc.{crc16}
use delonghi_ha.Ecam.Crc.Register.{
  shift, shifts, enter, register, shift-lt, enter-lt, register-lt, register-append, big_endian,
  crc16-register,
}

-- While the top bit is clear a shift is a multiplication by two.
shift_clear : (r : ℕ) → r < 2 ^ 15 → shift r ≡ r * 2
unfolding shift
shift_clear r h = ground (arith, bit_xor-zero (r * 2 % 2 ^ 16))

shifts_clear : (r : ℕ) → r < 256 → shifts 8 r ≡ r * 256
unfolding shifts
shifts_clear r h = ground (
  arith,
  shift_clear r (omega arith),
  shift_clear (r * 2) (omega arith),
  shift_clear (r * 4) (omega arith),
  shift_clear (r * 8) (omega arith),
  shift_clear (r * 16) (omega arith),
  shift_clear (r * 32) (omega arith),
  shift_clear (r * 64) (omega arith),
  shift_clear (r * 128) (omega arith),
)

-- A shift loses nothing: the polynomial is odd, so the lowest bit tells whether it was added.
shift-injective : (r s : ℕ) → r < 2 ^ 16 → s < 2 ^ 16 → shift r ≡ shift s → r ≡ s
unfolding shift
shift-injective r s p q h = ground (
  arith,
  bit_xor-zero (r * 2 % 2 ^ 16),
  bit_xor-zero (s * 2 % 2 ^ 16),
  bit_xor_step (r * 2 % 2 ^ 16) 0x1021,
  bit_xor_step (s * 2 % 2 ^ 16) 0x1021,
  bit_xor_cancel (r * 2 % 2 ^ 16) 0x1021,
  bit_xor_cancel (s * 2 % 2 ^ 16) 0x1021,
)

shifts-injective : (n r s : ℕ) → r < 2 ^ 16 → s < 2 ^ 16 → shifts n r ≡ shifts n s → r ≡ s
unfolding shifts
shifts-injective zero r s p q h = h
shifts-injective (suc n) r s p q h =
    shift-injective r s p q (shifts-injective n (shift r) (shift s) (shift-lt r) (shift-lt s) h)

bit_xor-injective : (a b c : ℕ) → bit_xor a c ≡ bit_xor b c → a ≡ b
bit_xor-injective a b c h = sym (bit_xor_cancel a c) ∙ ap (λ x. bit_xor x c) h ∙ bit_xor_cancel b c

enter_state-injective :
    (r s byte : ℕ) → r < 2 ^ 16 → s < 2 ^ 16 → enter r byte ≡ enter s byte → r ≡ s
unfolding enter
enter_state-injective r s byte p q h = bit_xor-injective r s (byte % 256 * 256) (
    shifts-injective 8 _ _ (bit_xor-lt 16 r (byte % 256 * 256) p (omega arith))
      (bit_xor-lt 16 s (byte % 256 * 256) q (omega arith)) h)

enter_byte-injective : (r x y : ℕ) → r < 2 ^ 16 → x < 256 → y < 256 → enter r x ≡ enter r y → x ≡ y
unfolding enter
enter_byte-injective r x y p q w h =
    let same : bit_xor r (x % 256 * 256) ≡ bit_xor r (y % 256 * 256) =
      shifts-injective 8 _ _ (bit_xor-lt 16 r (x % 256 * 256) p (omega arith))
        (bit_xor-lt 16 r (y % 256 * 256) p (omega arith)) h in
    let bytes : x % 256 * 256 ≡ y % 256 * 256 =
      bit_xor-injective (x % 256 * 256) (y % 256 * 256) r
        (bit_xor_comm (x % 256 * 256) r ∙ same ∙ bit_xor_comm r (y % 256 * 256)) in
    omega arith

register-injective :
    (r s : ℕ) (bytes : List ℕ)
    → r < 2 ^ 16
    → s < 2 ^ 16
    → register r bytes ≡ register s bytes
    → r ≡ s
unfolding register
register-injective r s [] p q h = h
register-injective r s (x ∷ xs) p q h =
    enter_state-injective r s x p q
      (register-injective (enter r x) (enter s x) xs (enter-lt r x p) (enter-lt s x q) h)

big_endian-injective : (a b : ℕ) → big_endian a ≡ big_endian b → a ≡ b
big_endian-injective a b h = ground arith

-- Two bodies that differ in exactly one byte have different checksums.
pub crc16_detects_byte :
    (before after : List ℕ) (x y : ℕ)
    → x < 256
    → y < 256
    → x ≢ y
    → crc16 (before ++ x ∷ after) ≢ crc16 (before ++ y ∷ after)
crc16_detects_byte before after x y p q ne h =
    let r = register 0x1D0F before in
    let fits : r < 2 ^ 16 = register-lt 0x1D0F before (omega arith) in
    let same : register r (x ∷ after) ≡ register r (y ∷ after) =
      sym (register-append 0x1D0F before (x ∷ after))
      ∙ big_endian-injective _ _
          (sym (crc16-register (before ++ x ∷ after)) ∙ h ∙ crc16-register (before ++ y ∷ after))
      ∙ register-append 0x1D0F before (y ∷ after) in
    ne (
      enter_byte-injective r x y fits p q (
        register-injective (enter r x) (enter r y) after (enter-lt r x fits) (enter-lt r y fits)
          (unfold register in same)))

enter_high : (r : ℕ) → r < 2 ^ 16 → enter r (r / 256) ≡ r % 256 * 256
unfolding enter
enter_high r h =
    ap (shifts 8) (
      ap₂ bit_xor {x = r} {y = r / 256 * 2 ^ 8 + r % 256} {u = r / 256 % 256 * 256}
        {v = r / 256 * 2 ^ 8} (omega arith) (omega arith)
      ∙ bit_xor_high 8 (r / 256) (r % 256) (omega arith))
    ∙ shifts_clear (r % 256) (omega arith)

enter_low : (b : ℕ) → b < 256 → enter (b * 256) b ≡ 0
unfolding enter
enter_low b h =
    ap (shifts 8) (
      ap (bit_xor (b * 256)) {x = b % 256 * 256} {y = b * 256} (omega arith)
      ∙ bit_xor_self (b * 256))
    ∙ shifts_clear 0 (omega arith)

residue : (r : ℕ) → r < 2 ^ 16 → register r (big_endian r) ≡ 0
unfolding register
residue r h = ap (λ x. enter x (r % 256)) (enter_high r h) ∙ enter_low (r % 256) (omega arith)

-- A body followed by its checksum brings the register to zero.
pub residue_zero : (body : List ℕ) → register 0x1D0F (body ++ crc16 body) ≡ 0
residue_zero body =
    register-append 0x1D0F body (crc16 body)
    ∙ ap (register (register 0x1D0F body)) (crc16-register body)
    ∙ residue (register 0x1D0F body) (register-lt 0x1D0F body (omega arith))

-- Two bytes that bring the register to zero are the register before them.
two_bytes :
    (r high low : ℕ)
    → r < 2 ^ 16
    → high < 256
    → low < 256
    → register r (high ∷ low ∷ []) ≡ 0
    → r ≡ high * 256 + low
unfolding register
two_bytes r high low fits p q h =
    let first : enter r high ≡ low * 256 =
      enter_state-injective (enter r high) (low * 256) low (enter-lt r high fits) (omega arith)
        (h ∙ sym (enter_low low q)) in
    let mixed : bit_xor r (high % 256 * 256) ≡ low =
      shifts-injective 8 _ _ (bit_xor-lt 16 r (high % 256 * 256) fits (omega arith)) (omega arith)
        (unfold enter in first ∙ sym (shifts_clear low q)) in
    bit_xor-injective r (high * 256 + low) (high * 2 ^ 8) (
      ap (bit_xor r) {x = high * 2 ^ 8} {y = high % 256 * 256} (omega arith)
      ∙ mixed
      ∙ sym (bit_xor_high 8 high low q))

-- Over a body and two more bytes the register ends at zero exactly when those two bytes are the
-- body's checksum.
pub crc16_residue_iff :
    (body : List ℕ) (high low : ℕ)
    → high < 256
    → low < 256
    → (register 0x1D0F (body ++ high ∷ low ∷ []) ≡ 0) ↔ (crc16 body ≡ high ∷ low ∷ [])
crc16_residue_iff body high low p q = (checks, ends)
  where
    r : ℕ
    r = register 0x1D0F body

    fits : r < 2 ^ 16
    fits = register-lt 0x1D0F body (omega arith)

    ends : crc16 body ≡ high ∷ low ∷ [] → register 0x1D0F (body ++ high ∷ low ∷ []) ≡ 0
    ends h = ap (λ crc. register 0x1D0F (body ++ crc)) (sym h) ∙ residue_zero body

    checks : register 0x1D0F (body ++ high ∷ low ∷ []) ≡ 0 → crc16 body ≡ high ∷ low ∷ []
    checks h =
        crc16-register body
        ∙ ap big_endian (two_bytes r high low fits p q (sym (register-append 0x1D0F body _) ∙ h))
        ∙ ap₂ (λ x y. x ∷ y ∷ []) {x = (high * 256 + low) / 256} {y = high}
            {u = (high * 256 + low) % 256} {v = low} (omega arith) (omega arith)
