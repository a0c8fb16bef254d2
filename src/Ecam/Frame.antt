-- ===== src/Ecam/Frame.antt =====
-- The frame around every ECAM command: start byte, length, content, checksum.
pub mod Laws
use delonghi_ha.Prelude.{ℕ, ◌-◌, List, ◌++◌, ◌≡◌, some, All, length, get_elem?}
use delonghi_ha.Prelude.Int.{IsByte}
use delonghi_ha.Ecam.Crc.{crc16}
use delonghi_ha.Ecam.Crc.Register.{register}

-- `body + self._crc16(body)`
unfoldable pub seal : List ℕ → List ℕ
seal body = body ++ crc16 body

-- What a receiver checks of a frame: it is made of bytes, it starts with 0x0D, its second byte is
-- the number of bytes that follow the first, and the checksum over the whole leaves no remainder.
pub record IsFrame (frame : List ℕ) : Type 0 where
  pub bytes : All IsByte frame
  pub starts : get_elem? frame 0 ≡ some 0x0D
  pub counted : get_elem? frame 1 ≡ some (length frame - 1)
  pub checks : register 0x1D0F frame ≡ 0
