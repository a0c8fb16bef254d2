-- ===== src/Ecam/Crc.antt =====
-- CRC-16/SPI-FUJITSU as `DeLonghiApi._crc16` computes it (custom_components/delonghi_coffee/api.py).
-- Python's integers do not wrap: the loop keeps every bit that it shifts out, and only the end cuts
-- the value down to 16 bits.
pub mod Register
pub mod Detect
use delonghi_ha.Prelude.{
  ℕ, zero, suc, ◌+◌, ◌*◌, ◌/◌, ◌%◌, ◌^◌, bit_and, bit_xor, ◌==◌, if◌then◌else◌, List, [], ◌∷◌, ◌≡◌,
  refl,
}

-- One round of the inner loop.
unfoldable pub shift_once : ℕ → ℕ
shift_once crc = if bit_and crc 0x8000 == 0 then crc * 2 else bit_xor (crc * 2) 0x1021

-- `for _ in range(n)`
unfoldable pub shift_times : ℕ → ℕ → ℕ
shift_times zero crc = crc
shift_times (suc n) crc = shift_times n (shift_once crc)

-- One round of the outer loop.
unfoldable pub absorb : ℕ → ℕ → ℕ
absorb crc byte = shift_times 8 (bit_xor crc (byte * 2 ^ 8))

unfoldable pub crc_loop : ℕ → List ℕ → ℕ
crc_loop crc [] = crc
crc_loop crc (byte ∷ rest) = crc_loop (absorb crc byte) rest

-- `crc.to_bytes(2, byteorder="big")` after the mask.
unfoldable pub crc16 : List ℕ → List ℕ
unfolding crc_loop absorb shift_times shift_once
crc16 bytes = let crc = bit_and (crc_loop 0x1D0F bytes) 0xFFFF in crc / 2 ^ 8 ∷ crc % 2 ^ 8 ∷ []
