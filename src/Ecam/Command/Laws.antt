-- ===== src/Ecam/Command/Laws.antt =====
-- Which settings are refused, and that every command that is built is a frame.
use delonghi_ha.Prelude.{
  ℕ, ◌<◌, List, [], ◌∷◌, Bool, true, false, ◌≡◌, refl, arith, Bool-cases, inl, inr, ◌&&◌, leb,
}
use delonghi_ha.Prelude.Int.{ℤ, pos, negsuc, between}
use delonghi_ha.Prelude.Raise.{Result, ok, raise, api, ◌>>=◌}
use delonghi_ha.Ecam.Frame.{seal, IsFrame}
use delonghi_ha.Ecam.Frame.Laws.{seal-IsFrame}
use delonghi_ha.Ecam.Command.{
  profile_command, bean_slot_body, bean_select_command, bean_read_command,
}

-- The command of one content byte.
abbrev pub one_byte : ℕ → ℕ → List ℕ
one_byte opcode n = seal (0x0D ∷ 0x05 ∷ opcode ∷ n ∷ [])

one_byte-IsFrame : (opcode n : ℕ) → opcode < 256 → n < 256 → IsFrame (one_byte opcode n)
one_byte-IsFrame opcode n h k = seal-IsFrame 5 _ refl (omega arith) (omega arith)

-- A command is built, and is a frame, exactly when the test holds; else DeLonghiApiError is raised.
abbrev pub Builds : Bool → Result (List ℕ) → Type 0
Builds true r = (cmd : List ℕ) × (r ≡ ok cmd) × IsFrame cmd
Builds false r = r ≡ raise api

profile_command-Builds : (profile : ℤ) → Builds (between 1 profile 5) (profile_command profile)
unfolding profile_command
profile_command-Builds (negsuc n) = refl
profile_command-Builds (pos p) = elim (Bool-cases (leb 1 p && leb p 5)) [
  | inl fits ↦
      rw fits (one_byte 0xA9 p, ground arith, one_byte-IsFrame 0xA9 p (omega arith) (ground arith))
  | inr out ↦ rw out refl
]

bean_slot-Builds :
    (opcode : ℕ) (slot : ℤ)
    → opcode < 256
    → Builds (between 1 slot 7) (bean_slot_body opcode slot >>= λ body. ok (seal body))
unfolding bean_slot_body
bean_slot-Builds opcode (negsuc n) h = refl
bean_slot-Builds opcode (pos n) h = elim (Bool-cases (leb 1 n && leb n 7)) [
  | inl fits ↦ rw fits (one_byte opcode n, ground arith, one_byte-IsFrame opcode n h (ground arith))
  | inr out ↦ rw out refl
]

-- The profile command is built for the profiles 1 to 5, the two bean commands for the slots 1 to 7,
-- and what is built is a frame; for any other integer DeLonghiApiError is raised.
pub short_commands :
    (profile slot : ℤ)
    → Builds (between 1 profile 5) (profile_command profile)
      × Builds (between 1 slot 7) (bean_select_command slot)
      × Builds (between 1 slot 7) (bean_read_command slot)
unfolding bean_select_command bean_read_command
short_commands profile slot = (
  profile_command-Builds profile,
  bean_slot-Builds 0xB9 slot (omega arith),
  bean_slot-Builds 0xBA slot (omega arith),
)
