-- ===== src/Prelude/Raise.antt =====
-- Python's exceptions as values. The classes are those that a handler in the program tells apart.
use delonghi_ha.Prelude.Tests.{if◌then◌else◌}
use Prim.Native.Nat.{ℕ}
use mathlib.Core.Path.{◌≡◌, refl}
use mathlib.Core.Bool.{Bool}

-- `auth` is DeLonghiAuthError, `api` DeLonghiApiError itself, `unsupported` its subclass
-- DeLonghiUnsupportedError. `http n` is requests.HTTPError with a response of status n, and
-- `transport` any other requests.RequestException. The texts of the exceptions are left out.
pub data Exception : Type 0 where
  auth api unsupported value_error index_error key_error transport : Exception
  http : ℕ → Exception

pub data Result {ℓ} (A : Type ℓ) : Type ℓ where
  ok : A → Result A
  raise : Exception → Result A

infixl 5 ◌>>=◌ ◌>>◌
abbrev pub ◌>>=◌ {κ ℓ} :
    {Before : Type κ} {After : Type ℓ} → Result Before → (Before → Result After) → Result After
raise e >>= next = raise e
ok value >>= next = next value

abbrev pub ◌>>◌ {ℓ} : {After : Type ℓ} → Result (Unit {0}) → Result After → Result After
first >> next = first >>= λ _. next

-- `if not test: raise e`
abbrev pub require : Bool → Exception → Result (Unit {0})
require b e = if b then ok tt else raise e

-- What a chain that returned says of its first step.
pub >>=-ok {ℓ κ} :
    {B : Type κ} {A : Type ℓ} {result : B} (step : A → Result B) (first : Result A)
    → (first >>= step) ≡ ok result
    → (value : A) × (step value ≡ ok result) × (first ≡ ok value)
>>=-ok step (raise failure) returned = cc
>>=-ok step (ok value) returned = (value, returned, refl)
