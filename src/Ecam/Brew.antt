-- ===== src/Ecam/Brew.antt =====
-- The brew command built from a stored recipe: `_recipe_to_brew_command`
-- (custom_components/delonghi_coffee/api.py). `brew_frame` is the part that `brew_custom` has too.
pub mod Laws
pub mod Recipe
use delonghi_ha.Prelude.{
  ℕ, ◌+◌, ◌-◌, ◌*◌, ◌^◌, bit_or, List, [], ◌∷◌, ◌++◌, Bool, true, false, ◌&&◌, ◌||◌, ◌==◌, Option,
  none, some, length, get_elem?, if◌then◌else◌,
}
use delonghi_ha.Prelude.Int.{ℤ, pos, negsuc, to_bytes}
use delonghi_ha.Prelude.Raise.{Result, ok, raise, index_error, ◌>>=◌}
use delonghi_ha.Ecam.Frame.{seal}
use delonghi_ha.Ecam.Params.{slice, copy_params}

-- `(profile << 2) | 2`
abbrev pub profile_save : ℤ → ℤ
profile_save (pos p) = pos (bit_or (p * 2 ^ 2) 2)
profile_save (negsuc n) = negsuc (4 * n + 1)

-- `body + self._crc16(body)` for `body` of a brew.
unfoldable pub brew_frame : ℕ → List ℕ → ℤ → Result (List ℕ)
brew_frame bev_id brew_params profile = do
  let total = 6 + length brew_params + 1 + 2
  header ← to_bytes (pos 0x0D ∷ pos (total - 1) ∷ pos 0x83 ∷ pos 0xF0 ∷ pos bev_id ∷ pos 0x03 ∷ [])
  tail ← to_bytes (profile_save profile ∷ [])
  ok (seal (header ++ (brew_params ++ tail)))

-- `pid in exclude`
abbrev pub excluded : Bool → Bool → ℕ → Bool
excluded is_iced is_cold_brew pid =
    (pid == 25 || pid == 27) || ((is_iced || is_cold_brew) && (pid == 1 || (pid == 9 || pid == 15)))

-- What follows the copied parameters.
unfoldable pub closing : Bool → Bool → ℤ → Result (List ℕ)
closing true is_cold_brew intensity = ok (27 ∷ 1 ∷ 31 ∷ 0 ∷ 39 ∷ 1 ∷ [])
closing false true intensity = do
  iced ← to_bytes (pos 31 ∷ pos 3 ∷ pos 38 ∷ intensity ∷ [])
  ok (27 ∷ 1 ∷ (iced ++ 39 ∷ 1 ∷ []))
closing false false intensity = ok (27 ∷ 1 ∷ 39 ∷ 1 ∷ [])

-- `data[i]`
abbrev pub at : List ℕ → ℕ → Result ℕ
at xs i = elim (get_elem? xs i) [ none ↦ raise index_error | some b ↦ ok b ]

-- The conversion itself, past the test for a recipe that is a command already.
unfoldable pub convert : List ℕ → Bool → Bool → ℤ → ℤ → Result (List ℕ)
convert recipe is_iced is_cold_brew intensity profile = do
  bev_id ← at recipe 5
  end ← closing is_iced is_cold_brew intensity
  brew_frame bev_id (copy_params (excluded is_iced is_cold_brew) (slice 6 2 recipe) ++ end) profile

unfoldable pub recipe_to_brew_command : List ℕ → Bool → Bool → ℤ → ℤ → Result (List ℕ)
recipe_to_brew_command recipe is_iced is_cold_brew intensity profile = do
  first ← at recipe 0
  if first == 0x0D then ok recipe else convert recipe is_iced is_cold_brew intensity profile
