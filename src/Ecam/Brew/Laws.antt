-- ===== src/Ecam/Brew/Laws.antt =====
-- Brew commands are well-formed frames, and carry the parameters of the recipe that are not excluded.
use delonghi_ha.Prelude.{
  ℕ, ◌+◌, ◌*◌, ◌^◌, ◌<◌, ◌≤◌, bit_or, List, [], ◌∷◌, ◌++◌, true, false, ◌≡◌, arith, All, All-append,
  length, length-append, Bool-cases, inl, inr, ltb, leb, ◌&&◌, if◌then◌else◌,
}
use delonghi_ha.Prelude.Bits.{bit_or_fields}
use delonghi_ha.Prelude.Int.{ℤ, pos, negsuc, IsByte}
use delonghi_ha.Prelude.Raise.{ok, raise, value_error}
use delonghi_ha.Ecam.Frame.{seal, IsFrame}
use delonghi_ha.Ecam.Frame.Laws.{seal-IsFrame}
use delonghi_ha.Ecam.Brew.{brew_frame}

-- The frame with the bytes in place.
abbrev pub brew_bytes : ℕ → List ℕ → ℕ → List ℕ
brew_bytes bev_id params profile =
    seal (
      0x0D ∷ (length params + 8) ∷ 0x83 ∷ 0xF0 ∷ bev_id ∷ 0x03 ∷ (params ++ (profile * 4 + 2) ∷ []))

profile_byte : (p : ℕ) → bit_or (p * 2 ^ 2) 2 ≡ p * 4 + 2
profile_byte p = bit_or_fields 2 p 2 (omega arith)

-- The command is built exactly when the parameters have at most 247 bytes and the profile is at most
-- 63; otherwise a byte of it is out of range and ValueError is raised.
pub brew_frame_lem :
    (bev_id : ℕ) (params : List ℕ) (p : ℕ)
    → bev_id < 256
    → brew_frame bev_id params (pos p) ≡ (
        if leb (length params) 247 && ltb p 64
        then ok (brew_bytes bev_id params p)
        else raise value_error)
unfolding brew_frame
brew_frame_lem bev_id params p b = ground (arith, profile_byte p)

brew_frame_negative :
    (bev_id : ℕ) (params : List ℕ) (n : ℕ)
    → bev_id < 256
    → brew_frame bev_id params (negsuc n) ≡ raise value_error
unfolding brew_frame
brew_frame_negative bev_id params n b = ground arith

pub brew_frame_fits :
    (bev_id : ℕ) (params : List ℕ) (p : ℕ)
    → bev_id < 256
    → length params ≤ 247
    → p < 64
    → brew_frame bev_id params (pos p) ≡ ok (brew_bytes bev_id params p)
brew_frame_fits bev_id params p b l h = ground (arith, brew_frame_lem bev_id params p b)

pub brew_bytes-IsFrame :
    (bev_id : ℕ) (params : List ℕ) (p : ℕ)
    → bev_id < 256
    → length params ≤ 247
    → p < 64
    → All IsByte params
    → IsFrame (brew_bytes bev_id params p)
brew_bytes-IsFrame bev_id params p b l h bytes =
    seal-IsFrame (length params + 8) _ (omega (arith, length-append {0} params ((p * 4 + 2) ∷ [])))
      (omega arith)
      (
        omega arith,
        (
          omega arith,
          (b, (omega arith, All-append IsByte params ((p * 4 + 2) ∷ []) bytes (omega arith))),
        ),
      )

-- Whatever brew_frame returns is a frame.
pub brew_frame-IsFrame :
    (bev_id : ℕ) (params : List ℕ) (profile : ℤ) (cmd : List ℕ)
    → bev_id < 256
    → All IsByte params
    → brew_frame bev_id params profile ≡ ok cmd
    → IsFrame cmd
brew_frame-IsFrame bev_id params (negsuc n) cmd b bytes e = absurd (raised e)
  where
    raised : brew_frame bev_id params (negsuc n) ≡ ok cmd → ⊥
    raised e = cc (brew_frame_negative bev_id params n b)
brew_frame-IsFrame bev_id params (pos p) cmd b bytes e =
    elim (Bool-cases (leb (length params) 247 && ltb p 64)) [
      | inl fits ↦
          rw (← returned fits)
            (brew_bytes-IsFrame bev_id params p b (ground arith) (ground arith) bytes)
      | inr out ↦ absurd (raised out)
    ]
  where
    returned : leb (length params) 247 && ltb p 64 ≡ true → brew_bytes bev_id params p ≡ cmd
    returned fits = ground (arith, brew_frame_lem bev_id params p b)

    raised : leb (length params) 247 && ltb p 64 ≡ false → ⊥
    raised out = ground (arith, brew_frame_lem bev_id params p b)
