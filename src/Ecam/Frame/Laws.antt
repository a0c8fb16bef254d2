-- ===== src/Ecam/Frame/Laws.antt =====
-- A body with its length byte, once sealed, is a frame.
use delonghi_ha.Prelude.{
  ℕ, ◌+◌, ◌<◌, List, ◌∷◌, ◌≡◌, refl, ap, some, arith, All, All-append, length, length-append,
}
use delonghi_ha.Prelude.Int.{IsByte}
use delonghi_ha.Ecam.Crc.{crc16}
use delonghi_ha.Ecam.Crc.Register.{register-lt, crc16-register}
use delonghi_ha.Ecam.Crc.Detect.{residue_zero}
use delonghi_ha.Ecam.Frame.{seal, IsFrame}

crc16-IsByte : (body : List ℕ) → All IsByte (crc16 body)
crc16-IsByte body =
    let fits = register-lt 0x1D0F body (omega arith) in rw crc16-register (omega arith)

pub length-crc16 : (body : List ℕ) → length (crc16 body) ≡ 2
length-crc16 body = ap length (crc16-register body)

pub seal-IsFrame :
    (len : ℕ) (rest : List ℕ)
    → len ≡ length rest + 3
    → len < 256
    → All IsByte rest
    → IsFrame (seal (0x0D ∷ len ∷ rest))
unfolding seal
seal-IsFrame len rest counts fits bytes = record {
  bytes =
      All-append IsByte (0x0D ∷ len ∷ rest) (crc16 (0x0D ∷ len ∷ rest)) (omega arith, (fits, bytes))
        (crc16-IsByte (0x0D ∷ len ∷ rest));
  starts = refl;
  counted = ap some (
      omega (
        arith,
        length-append {0} rest (crc16 (0x0D ∷ len ∷ rest)),
        length-crc16 (0x0D ∷ len ∷ rest),
      ));
  checks = residue_zero (0x0D ∷ len ∷ rest);
}

pub length-seal : (body : List ℕ) → length (seal body) ≡ length body + 2
unfolding seal
length-seal body = omega (arith, length-append {0} body (crc16 body), length-crc16 body)
