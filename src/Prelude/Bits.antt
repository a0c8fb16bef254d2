-- ===== src/Prelude/Bits.antt =====
-- Bitwise operations on numbers, as recursions on their binary digits.
use Prim.Native.Nat.{
  ℕ, zero, suc, ◌+◌, ◌-◌, ◌*◌, ◌/◌, ◌%◌, ◌^◌, ◌≤◌, ◌<◌, min, max, bit_and, bit_or, bit_xor, digits,
  bitwise, bit_and-bitwise, bit_or-bitwise, bit_xor-bitwise, differ,
}
use mathlib.Core.Path.{◌≡◌, refl, sym, ap, ap₂, ◌∙◌}
use native.Mathlib.Nat.{one-le-pow, pow-suc, mod-eq_of_lt, mod-lt}
use native.Mathlib.Omega.{arith}

-- More fuel than the first number changes nothing.
module _ (tail : ℕ → ℕ) (digit : ℕ → ℕ → ℕ) where
  spare_unit :
      (fuel x y : ℕ) → x ≤ fuel → digits tail digit (suc fuel) x y ≡ digits tail digit fuel x y
  spare_unit zero zero y le = refl
  spare_unit (suc fuel) zero y le = refl
  spare_unit zero (suc x) y le = absurd (omega arith)
  spare_unit (suc fuel) (suc x) y le =
      ap (λ (high : ℕ). high * 2 + digit (suc x % 2) (y % 2))
        (spare_unit fuel (suc x / 2) (y / 2) (omega arith))

  spare_units :
      (spare fuel x y : ℕ)
      → x ≤ fuel
      → digits tail digit (spare + fuel) x y ≡ digits tail digit fuel x y
  spare_units zero fuel x y le =
      ap (λ (units : ℕ). digits tail digit units x y) {x = 0 + fuel} {y = fuel} (omega arith)
  spare_units (suc spare) fuel x y le =
      ap (λ (units : ℕ). digits tail digit units x y) {x = suc spare + fuel}
        {y = suc (spare + fuel)} (omega arith)
      ∙ spare_unit (spare + fuel) x y (omega arith)
      ∙ spare_units spare fuel x y le

  lowest_digit :
      (x y : ℕ)
      → bitwise tail digit (suc x) y
        ≡ bitwise tail digit (suc x / 2) (y / 2) * 2 + digit (suc x % 2) (y % 2)
  lowest_digit x y =
      ap (λ (fuel : ℕ). digits tail digit fuel half (y / 2) * 2 + digit (suc x % 2) (y % 2)) {x = x}
        {y = (x - half) + half} (omega arith)
      ∙ ap (λ (high : ℕ). high * 2 + digit (suc x % 2) (y % 2))
          (spare_units (x - half) half half (y / 2) (omega arith))
    where
      half : ℕ
      half = suc x / 2

-- The operations digit by digit.
pub bit_and_step : (x y : ℕ) → bit_and x y ≡ bit_and (x / 2) (y / 2) * 2 + min (x % 2) (y % 2)
bit_and_step (suc x) y = simp bit_and-bitwise (lowest_digit (λ _. 0) min x y)
bit_and_step zero y = simp bit_and-bitwise (omega arith)

pub bit_or_step : (x y : ℕ) → bit_or x y ≡ bit_or (x / 2) (y / 2) * 2 + max (x % 2) (y % 2)
bit_or_step (suc x) y = simp bit_or-bitwise (lowest_digit (λ w. w) max x y)
bit_or_step zero y = simp bit_or-bitwise (omega arith)

differ_bits : (x y : ℕ) → x < 2 → y < 2 → differ x y ≡ (x + y) % 2
differ_bits zero y p q = omega arith
differ_bits (suc zero) zero p q = refl
differ_bits (suc zero) (suc zero) p q = refl
differ_bits (suc zero) (suc (suc y)) p q = absurd (omega arith)
differ_bits (suc (suc x)) y p q = absurd (omega arith)

pub bit_xor_step : (a b : ℕ) → bit_xor a b ≡ bit_xor (a / 2) (b / 2) * 2 + (a + b) % 2
bit_xor_step zero b = simp bit_xor-bitwise (omega arith)
bit_xor_step (suc a) b =
    let step : bit_xor (suc a) b ≡ bit_xor (suc a / 2) (b / 2) * 2 + differ (suc a % 2) (b % 2) =
      simp bit_xor-bitwise (lowest_digit (λ w. w) differ a b) in
    omega (arith, differ_bits (suc a % 2) (b % 2) (omega arith) (omega arith))

half_bit_xor : (a b : ℕ) → bit_xor a b / 2 ≡ bit_xor (a / 2) (b / 2)
half_bit_xor a b = omega (arith, bit_xor_step a b)

bit_xor_cancel_fuel : (n a b : ℕ) → a ≤ n → b ≤ n → bit_xor (bit_xor a b) b ≡ a
bit_xor_cancel_fuel zero zero zero p q = refl
bit_xor_cancel_fuel zero zero (suc b) p q = absurd (omega arith)
bit_xor_cancel_fuel zero (suc a) b p q = absurd (omega arith)
bit_xor_cancel_fuel (suc n) a b p q =
    let half : bit_xor a b / 2 ≡ bit_xor (a / 2) (b / 2) = omega (arith, bit_xor_step a b) in
    let ih : bit_xor (bit_xor (a / 2) (b / 2)) (b / 2) ≡ a / 2 =
      bit_xor_cancel_fuel n (a / 2) (b / 2) (omega arith) (omega arith) in
    let step : bit_xor (bit_xor a b) b
        ≡ bit_xor (bit_xor (a / 2) (b / 2)) (b / 2) * 2 + (bit_xor a b + b) % 2 =
      bit_xor_step (bit_xor a b) b ∙ ap (λ h. bit_xor h (b / 2) * 2 + (bit_xor a b + b) % 2) half in
    omega (arith, bit_xor_step a b)

-- Exclusive or with the same number twice gives the first number back.
pub bit_xor_cancel : (a b : ℕ) → bit_xor (bit_xor a b) b ≡ a
bit_xor_cancel a b = bit_xor_cancel_fuel (a + b) a b (omega arith) (omega arith)

-- An operation that works digit by digit is commutative if it is so on digits.
module _ (op digit : ℕ → ℕ → ℕ)
    (step : (x y : ℕ) → op x y ≡ op (x / 2) (y / 2) * 2 + digit (x % 2) (y % 2))
    (digit_comm : (x y : ℕ) → digit x y ≡ digit y x) where
  comm_up_to : (bound x y : ℕ) → x ≤ bound → y ≤ bound → op x y ≡ op y x
  comm_up_to zero x y p q = ap₂ op {x = x} {y = y} {u = y} {v = x} (omega arith) (omega arith)
  comm_up_to (suc bound) x y p q = omega (
    arith,
    step x y,
    step y x,
    digit_comm (x % 2) (y % 2),
    comm_up_to bound (x / 2) (y / 2) (omega arith) (omega arith),
  )

  op_comm : (x y : ℕ) → op x y ≡ op y x
  op_comm x y = comm_up_to (x + y) x y (omega arith) (omega arith)

max_comm : (x y : ℕ) → max x y ≡ max y x
max_comm x y = omega arith

min_comm : (x y : ℕ) → min x y ≡ min y x
min_comm x y = omega arith

xor_digit : ℕ → ℕ → ℕ
xor_digit x y = (x + y) % 2

bit_xor_digit_step :
    (a b : ℕ) → bit_xor a b ≡ bit_xor (a / 2) (b / 2) * 2 + xor_digit (a % 2) (b % 2)
unfolding xor_digit
bit_xor_digit_step a b = omega (arith, bit_xor_step a b)

xor_digit_comm : (x y : ℕ) → xor_digit x y ≡ xor_digit y x
unfolding xor_digit
xor_digit_comm x y = omega arith

pub bit_xor_comm : (a b : ℕ) → bit_xor a b ≡ bit_xor b a
bit_xor_comm = op_comm bit_xor xor_digit bit_xor_digit_step xor_digit_comm

pub bit_or_comm : (a b : ℕ) → bit_or a b ≡ bit_or b a
bit_or_comm = op_comm bit_or max bit_or_step max_comm

bit_and_comm : (a b : ℕ) → bit_and a b ≡ bit_and b a
bit_and_comm = op_comm bit_and min bit_and_step min_comm

pub bit_xor-zero : (a : ℕ) → bit_xor a 0 ≡ a
bit_xor-zero a = bit_xor_comm a 0 ∙ bit_xor-bitwise 0 a

pub bit_xor_self : (a : ℕ) → bit_xor a a ≡ 0
bit_xor_self a = ap (λ h. bit_xor h a) (sym (bit_xor-bitwise 0 a)) ∙ bit_xor_cancel 0 a

-- The remainder and the quotient by twice a number.
mod_double : (p x : ℕ) → 0 < p → x % (p * 2) ≡ x / 2 % p * 2 + x % 2
mod_double p x h = grind arith

div_double : (p x : ℕ) → 0 < p → x / (p * 2) ≡ x / 2 / p
div_double p x h = grind arith

pub bit_and-zero : (a : ℕ) → bit_and a 0 ≡ 0
bit_and-zero a = bit_and_comm a 0 ∙ bit_and-bitwise 0 a

pub bit_or-zero : (a : ℕ) → bit_or a 0 ≡ a
bit_or-zero a = bit_or_comm a 0 ∙ bit_or-bitwise 0 a

double : (k q : ℕ) → q * 2 ^ suc k ≡ 2 * (q * 2 ^ k)
double k q = omega (arith, ap (λ (t : ℕ). q * t) (pow-suc 2 k))

bit_xor_digits :
    (a b x y : ℕ) → x < 2 → y < 2 → bit_xor (a * 2 + x) (b * 2 + y) ≡ bit_xor a b * 2 + (x + y) % 2
bit_xor_digits a b x y p q =
    bit_xor_step (a * 2 + x) (b * 2 + y)
    ∙ ap₂ (λ h m. bit_xor h m * 2 + (a * 2 + x + (b * 2 + y)) % 2) half_a half_b
    ∙ omega arith
  where
    half_a : (a * 2 + x) / 2 ≡ a
    half_a = omega arith

    half_b : (b * 2 + y) / 2 ≡ b
    half_b = omega arith

-- Exclusive or of two numbers with the same high digits leaves the low ones.
pub bit_xor_high : (k q r : ℕ) → r < 2 ^ k → bit_xor (q * 2 ^ k + r) (q * 2 ^ k) ≡ r
bit_xor_high zero q r h =
    ap₂ bit_xor {x = q * 1 + r} {y = q} {u = q * 1} {v = q} (omega arith) (omega arith)
    ∙ bit_xor_self q
    ∙ omega arith
bit_xor_high (suc k) q r h =
    ap₂ bit_xor {x = q * 2 ^ suc k + r} {y = (q * 2 ^ k + r / 2) * 2 + r % 2} {u = q * 2 ^ suc k}
      {v = q * 2 ^ k * 2 + 0} (omega (arith, double k q)) (omega (arith, double k q))
    ∙ bit_xor_digits (q * 2 ^ k + r / 2) (q * 2 ^ k) (r % 2) 0 (omega arith) (omega arith)
    ∙ omega (arith, bit_xor_high k q (r / 2) (omega (arith, pow-suc 2 k)))

-- Exclusive or acts on the low digits by themselves.
pub mod-bit_xor : (k a b : ℕ) → bit_xor a b % 2 ^ k ≡ bit_xor (a % 2 ^ k) (b % 2 ^ k)
mod-bit_xor zero a b =
    let low : bit_xor (a % 1) (b % 1) ≡ bit_xor 0 0 =
      ap₂ bit_xor {x = a % 1} {y = 0} {u = b % 1} {v = 0} (omega arith) (omega arith) in
    omega (arith, low)
mod-bit_xor (suc k) a b =
    let p = one-le-pow k 2 (omega arith) in
    let low : bit_xor (a / 2 % 2 ^ k * 2 + a % 2) (b / 2 % 2 ^ k * 2 + b % 2)
        ≡ bit_xor (a / 2 % 2 ^ k) (b / 2 % 2 ^ k) * 2 + (a + b) % 2 =
      bit_xor_digits (a / 2 % 2 ^ k) (b / 2 % 2 ^ k) (a % 2) (b % 2) (omega arith) (omega arith)
      ∙ omega arith in
    rw (pow-suc 2 k) (
      mod_double (2 ^ k) (bit_xor a b) p
      ∙ omega (
        arith,
        bit_xor_step a b,
        ap (λ (h : ℕ). h % 2 ^ k) (half_bit_xor a b),
        mod-bit_xor k (a / 2) (b / 2),
      )
      ∙ sym low
      ∙ ap₂ bit_xor (sym (mod_double (2 ^ k) a p)) (sym (mod_double (2 ^ k) b p)))

-- The bit of weight `2 ^ k`.
pub bit_and_pow : (k a : ℕ) → bit_and a (2 ^ k) ≡ a / 2 ^ k % 2 * 2 ^ k
bit_and_pow zero a = omega (arith, bit_and_step a 1, bit_and-zero (a / 2))
bit_and_pow (suc k) a =
    let p = one-le-pow k 2 (omega arith) in
    rw (pow-suc 2 k) (
      bit_and_step a (2 ^ k * 2)
      ∙ ap₂ (λ x y. bit_and (a / 2) x * 2 + min (a % 2) y) {x = 2 ^ k * 2 / 2} {y = 2 ^ k}
          {u = 2 ^ k * 2 % 2} {v = 0} (omega arith) (omega arith)
      ∙ rw (div_double (2 ^ k) a p)
          (omega (arith, bit_and_pow k (a / 2), ap (λ (x : ℕ). x * 2) (bit_and_pow k (a / 2)))))

-- A mask of `k` low bits is the remainder by `2 ^ k`.
pub bit_and_mask : (k a : ℕ) → bit_and a (2 ^ k - 1) ≡ a % 2 ^ k
bit_and_mask zero a = bit_and-zero a ∙ omega arith
bit_and_mask (suc k) a =
    let p = one-le-pow k 2 (omega arith) in
    rw (pow-suc 2 k) (
      bit_and_step a (2 ^ k * 2 - 1)
      ∙ ap₂ (λ x y. bit_and (a / 2) x * 2 + min (a % 2) y) {x = (2 ^ k * 2 - 1) / 2} {y = 2 ^ k - 1}
          {u = (2 ^ k * 2 - 1) % 2} {v = 1} (omega arith) (omega arith)
      ∙ omega (arith, bit_and_mask k (a / 2))
      ∙ sym (mod_double (2 ^ k) a p))

-- `(high << k) | low` is a sum when `low` fits `k` bits.
pub bit_or_fields : (k high low : ℕ) → low < 2 ^ k → bit_or (high * 2 ^ k) low ≡ high * 2 ^ k + low
bit_or_fields (suc k) high low small =
    let rest : bit_or (high * 2 ^ k) (low / 2) ≡ high * 2 ^ k + low / 2 =
      bit_or_fields k high (low / 2) (omega (arith, pow-suc 2 k)) in
    ground (arith, double k high, rest, bit_or_step (high * 2 ^ suc k) low)
bit_or_fields zero high low small = ground (bit_or-zero high, arith)

-- Exclusive or of two `k`-bit numbers is a `k`-bit number.
pub bit_xor-lt : (k a b : ℕ) → a < 2 ^ k → b < 2 ^ k → bit_xor a b < 2 ^ k
bit_xor-lt k a b p q =
    let low : bit_xor (a % 2 ^ k) (b % 2 ^ k) ≡ bit_xor a b =
      ap₂ bit_xor (mod-eq_of_lt p) (mod-eq_of_lt q) in
    rw (← low) (rw (← mod-bit_xor k a b) (mod-lt (bit_xor a b) (one-le-pow k 2 (omega arith))))
