-- ===== src/Ecam/Crc/Register.antt =====
-- The same checksum on a 16-bit register, as its standard states it.
use delonghi_ha.Prelude.{
  ℕ, zero, suc, ◌*◌, ◌/◌, ◌%◌, ◌^◌, ◌<◌, bit_xor, ltb, if◌then◌else◌, List, [], ◌∷◌, ◌++◌, ◌≡◌,
  refl, ap, ◌∙◌, arith,
}
use delonghi_ha.Prelude.Bits.{mod-bit_xor, bit_and_pow, bit_and_mask, bit_xor-lt, bit_xor-zero}
use delonghi_ha.Ecam.Crc.{shift_once, shift_times, absorb, crc_loop, crc16}

-- A shift of the register drops its top bit; if that bit was set, the polynomial is added.
unfoldable pub shift : ℕ → ℕ
shift r = bit_xor (r * 2 % 2 ^ 16) (if ltb r 0x8000 then 0 else 0x1021)

unfoldable pub shifts : ℕ → ℕ → ℕ
shifts zero r = r
shifts (suc n) r = shifts n (shift r)

-- A byte enters at the top of the register.
unfoldable pub enter : ℕ → ℕ → ℕ
enter r byte = shifts 8 (bit_xor r (byte % 256 * 256))

unfoldable pub register : ℕ → List ℕ → ℕ
register r [] = r
register r (byte ∷ rest) = register (enter r byte) rest

pub shift-lt : (r : ℕ) → shift r < 2 ^ 16
unfolding shift
shift-lt r = bit_xor-lt 16 _ _ (omega arith) (ground arith)

pub shifts-lt : (n r : ℕ) → r < 2 ^ 16 → shifts n r < 2 ^ 16
unfolding shifts
shifts-lt zero r h = h
shifts-lt (suc n) r h = shifts-lt n (shift r) (shift-lt r)

doubled_low : (c : ℕ) → c * 2 % 2 ^ 16 ≡ c % 2 ^ 16 * 2 % 2 ^ 16
doubled_low c = omega arith

shift_once_low : (c : ℕ) → shift_once c % 2 ^ 16 ≡ shift (c % 2 ^ 16)
unfolding shift_once shift
shift_once_low c = ground (
  arith,
  bit_and_pow 15 c,
  bit_xor-zero (c % 2 ^ 16 * 2 % 2 ^ 16),
  mod-bit_xor 16 (c * 2) 0x1021,
  doubled_low c,
)

shift_times_low : (n c : ℕ) → shift_times n c % 2 ^ 16 ≡ shifts n (c % 2 ^ 16)
unfolding shift_times shifts
shift_times_low zero c = refl
shift_times_low (suc n) c = shift_times_low n (shift_once c) ∙ ap (shifts n) (shift_once_low c)

absorb_low : (c byte : ℕ) → absorb c byte % 2 ^ 16 ≡ enter (c % 2 ^ 16) byte
unfolding absorb enter
absorb_low c byte =
    shift_times_low 8 (bit_xor c (byte * 2 ^ 8))
    ∙ ap (shifts 8) (
        mod-bit_xor 16 c (byte * 2 ^ 8)
        ∙ ap (bit_xor (c % 2 ^ 16)) {x = byte * 2 ^ 8 % 2 ^ 16} {y = byte % 256 * 256}
            (omega arith))

crc_loop_low : (c : ℕ) (bytes : List ℕ) → crc_loop c bytes % 2 ^ 16 ≡ register (c % 2 ^ 16) bytes
unfolding crc_loop register
crc_loop_low c [] = refl
crc_loop_low c (byte ∷ rest) =
    crc_loop_low (absorb c byte) rest ∙ ap (λ r. register r rest) (absorb_low c byte)

pub enter-lt : (r byte : ℕ) → r < 2 ^ 16 → enter r byte < 2 ^ 16
unfolding enter
enter-lt r byte h = shifts-lt 8 _ (bit_xor-lt 16 r (byte % 256 * 256) h (omega arith))

pub register-lt : (r : ℕ) (bytes : List ℕ) → r < 2 ^ 16 → register r bytes < 2 ^ 16
unfolding register
register-lt r [] h = h
register-lt r (byte ∷ rest) h = register-lt (enter r byte) rest (enter-lt r byte h)

pub register-append : (r : ℕ) (xs ys : List ℕ) → register r (xs ++ ys) ≡ register (register r xs) ys
unfolding register
register-append r [] ys = refl
register-append r (x ∷ xs) ys = register-append (enter r x) xs ys

-- The final value as the big-endian bytes of the register.
abbrev pub big_endian : ℕ → List ℕ
big_endian r = r / 256 ∷ r % 256 ∷ []

-- On any bytes the unbounded loop with one mask at its end gives the big-endian bytes of the
-- 16-bit register that starts at 0x1D0F.
pub crc16-register : (bytes : List ℕ) → crc16 bytes ≡ big_endian (register 0x1D0F bytes)
unfolding crc16
crc16-register bytes =
    ap big_endian (bit_and_mask 16 (crc_loop 0x1D0F bytes) ∙ crc_loop_low 0x1D0F bytes)
