-- ===== src/Ecam/Command.antt =====
-- The short commands and the Bean Adapt commands (custom_components/delonghi_coffee/api.py). Each is
-- the frame that the method of DeLonghiApi hands to `send_command`.
pub mod Laws
pub mod BeanWrite
use delonghi_ha.Prelude.{ℕ, ◌+◌, List, [], ◌∷◌, ◌++◌, length}
use delonghi_ha.Prelude.Int.{ℤ, pos, negsuc, between, to_bytes}
use delonghi_ha.Prelude.Raise.{Result, ok, raise, api, ◌>>=◌, ◌>>◌, require}
use delonghi_ha.Ecam.Frame.{seal}
use delonghi_ha.Ecam.Text.{encode_bean_name}

-- `_MONITOR_CMD`, POWER_ON_CMD and POWER_OFF_CMD
abbrev pub monitor_command : List ℕ
monitor_command = 0x0d ∷ 0x07 ∷ 0x84 ∷ 0x0f ∷ 0x03 ∷ 0x02 ∷ 0x56 ∷ 0x40 ∷ []

abbrev pub power_on_command : List ℕ
power_on_command = 0x0d ∷ 0x07 ∷ 0x84 ∷ 0x0f ∷ 0x02 ∷ 0x01 ∷ 0x55 ∷ 0x12 ∷ []

abbrev pub power_off_command : List ℕ
power_off_command = 0x0d ∷ 0x07 ∷ 0x84 ∷ 0x0f ∷ 0x01 ∷ 0x01 ∷ 0x00 ∷ 0x41 ∷ []

-- `cancel_brew`
unfoldable pub cancel_command : List ℕ
cancel_command = seal (0x0D ∷ 0x04 ∷ 0x8F ∷ [])

-- `set_active_profile`
unfoldable pub profile_command : ℤ → Result (List ℕ)
profile_command profile = do
  require (between 1 profile 5) api
  body ← to_bytes (pos 0x0D ∷ pos 0x05 ∷ pos 0xA9 ∷ profile ∷ [])
  ok (seal body)

-- `_build_bean_select_body` and `_build_bean_read_body` differ in their opcode only.
unfoldable pub bean_slot_body : ℕ → ℤ → Result (List ℕ)
bean_slot_body opcode slot = do
  require (between 1 slot 7) api
  to_bytes (pos 0x0D ∷ pos 0x05 ∷ pos opcode ∷ slot ∷ [])

unfoldable pub bean_select_command : ℤ → Result (List ℕ)
unfolding bean_slot_body
bean_select_command slot = bean_slot_body 0xB9 slot >>= λ body. ok (seal body)

unfoldable pub bean_read_command : ℤ → Result (List ℕ)
unfolding bean_slot_body
bean_read_command slot = bean_slot_body 0xBA slot >>= λ body. ok (seal body)

-- The settings of a bean profile.
pub record Bean : Type 0 where
  pub slot : ℤ
  pub name : List ℕ
  pub temperature : ℤ
  pub intensity : ℤ
  pub grinder : ℤ
  pub flag1 : ℤ
  pub flag2 : ℤ

-- The guards of `_build_bean_write_body`.
unfoldable pub bean_guards : Bean → Result (Unit {0})
bean_guards b = do
  require (between 1 b.slot 7) api
  require (between 0 b.temperature 0xFF) api
  require (between 0 b.intensity 0xFF) api
  require (between 0 b.grinder 0xFF) api
  require (between 0 b.flag1 1) api
  require (between 0 b.flag2 1) api

-- The rest of `_build_bean_write_body`.
unfoldable pub bean_payload : ℤ → List ℕ → ℤ → ℤ → ℤ → ℤ → ℤ → Result (List ℕ)
bean_payload slot name temperature intensity grinder flag1 flag2 = do
  name_bytes ← encode_bean_name name
  front ← to_bytes (slot ∷ [])
  tail ← to_bytes (temperature ∷ intensity ∷ grinder ∷ flag1 ∷ flag2 ∷ [])
  let payload = front ++ (name_bytes ++ tail)
  header ← to_bytes (pos 0x0D ∷ pos (length payload + 4) ∷ pos 0xBB ∷ [])
  ok (header ++ payload)

unfoldable pub bean_write_body : Bean → Result (List ℕ)
bean_write_body b =
    bean_guards b >> bean_payload b.slot b.name b.temperature b.intensity b.grinder b.flag1 b.flag2

-- `write_bean_system`
unfoldable pub bean_write_command : Bean → Result (List ℕ)
bean_write_command b = bean_write_body b >>= λ body. ok (seal body)
