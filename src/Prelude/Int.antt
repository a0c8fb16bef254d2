-- ===== src/Prelude/Int.antt =====
-- Python's integers over the native numbers, as far as the program reads them: comparisons with
-- bounds, bytes, and the two low bytes of an integer of either sign.
use Prim.Native.Nat.{ℕ, suc, ◌+◌, ◌-◌, ◌/◌, ◌%◌, ◌<◌, ◌≤◌}
use mathlib.Core.Path.{◌≡◌, refl}
use mathlib.Core.Bool.{Bool, true, false, ◌&&◌}
use mathlib.Core.List.{List, [], ◌∷◌}
use native.Mathlib.Omega.{arith}
use delonghi_ha.Prelude.Tests.{ltb, leb, if◌then◌else◌}
use delonghi_ha.Prelude.Raise.{Result, ok, raise, value_error, ◌>>=◌}

-- `negsuc n` is -(n + 1).
pub data ℤ : Type 0 where
  pos : ℕ → ℤ
  negsuc : ℕ → ℤ

-- `lo <= x <= hi` for bounds that are not negative.
abbrev pub between : ℕ → ℤ → ℕ → Bool
between lo (pos n) hi = leb lo n && leb n hi
between lo (negsuc n) hi = false

-- `x <= y`
abbrev pub leb_int : ℤ → ℤ → Bool
leb_int (pos m) (pos n) = leb m n
leb_int (pos m) (negsuc n) = false
leb_int (negsuc m) (pos n) = true
leb_int (negsuc m) (negsuc n) = leb n m

-- `x + y`
abbrev pub add_int : ℤ → ℤ → ℤ
add_int (pos m) (pos n) = pos (m + n)
add_int (pos m) (negsuc n) = if ltb n m then pos (m - suc n) else negsuc (n - m)
add_int (negsuc m) (pos n) = if ltb m n then pos (n - suc m) else negsuc (m - n)
add_int (negsuc m) (negsuc n) = negsuc (suc (m + n))

-- `x & 0xFF` and `(x >> 8) & 0xFF`, of the two's complement if x is negative.
abbrev pub low_byte : ℤ → ℕ
low_byte (pos n) = n % 256
low_byte (negsuc n) = 255 - n % 256

abbrev pub high_byte : ℤ → ℕ
high_byte (pos n) = n / 256 % 256
high_byte (negsuc n) = 255 - n / 256 % 256

-- An element of `bytes([...])`: a value out of range raises ValueError.
abbrev pub to_byte : ℤ → Result ℕ
to_byte (pos n) = if ltb n 256 then ok n else raise value_error
to_byte (negsuc n) = raise value_error

-- `bytes(xs)`
abbrev pub to_bytes : List ℤ → Result (List ℕ)
to_bytes [] = ok []
to_bytes (x ∷ xs) = to_byte x >>= λ b. to_bytes xs >>= λ bs. ok (b ∷ bs)

abbrev pub IsByte : ℕ → Type 0
IsByte b = b < 256

-- What a passed range test says.
pub between_pos :
    (lo : ℕ) (x : ℤ) (hi : ℕ) → between lo x hi ≡ true → (n : ℕ) × (x ≡ pos n) × (lo ≤ n) × (n ≤ hi)
between_pos lo (pos n) hi h = (n, refl, ground arith, ground arith)
between_pos lo (negsuc n) hi h = cc
