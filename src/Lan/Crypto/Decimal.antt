-- ===== src/Lan/Crypto/Decimal.antt =====
-- `str(n)` of an integer, as ASCII (custom_components/delonghi_coffee/lan.py, `derive_session`).
use delonghi_ha.Prelude.{
  ℕ, zero, suc, ◌+◌, ◌/◌, ◌%◌, ◌<◌, List, [], ◌∷◌, ◌++◌, Bool-cases, inl, inr, true, false, ltb,
  ◌≡◌, refl, ap, arith,
}
use delonghi_ha.Prelude.Int.{ℤ, pos, negsuc}

-- The digits, on fuel: as many rounds as the number is large are enough.
unfoldable pub digits_on : ℕ → ℕ → List ℕ
digits_on zero n = []
digits_on (suc fuel) n = elim (ltb n 10) [
  | true ↦ (0x30 + n) ∷ []
  | false ↦ digits_on fuel (n / 10) ++ ((0x30 + n % 10) ∷ [])
]

unfoldable pub show_nat : ℕ → List ℕ
show_nat n = digits_on (n + 1) n

unfoldable pub show_int : ℤ → List ℕ
show_int (pos n) = show_nat n
show_int (negsuc n) = 0x2D ∷ show_nat (n + 1)

-- More fuel than the number changes nothing.
pub digits_on-enough : (fuel more n : ℕ) → n < fuel → n < more → digits_on fuel n ≡ digits_on more n
unfolding digits_on
digits_on-enough zero more n h k = absurd (omega arith)
digits_on-enough (suc fuel) zero n h k = absurd (omega arith)
digits_on-enough (suc fuel) (suc more) n h k = elim (Bool-cases (ltb n 10)) [
  | inl small ↦ rw (digits_on, small) refl
  | inr large ↦
      rw (digits_on, large)
        (ap (λ high. high ++ ((0x30 + n % 10) ∷ []))
          (digits_on-enough fuel more (n / 10) (ground arith) (ground arith)))
]

clock : show_nat 1700000000 ≡ 49 ∷ 55 ∷ 48 ∷ 48 ∷ 48 ∷ 48 ∷ 48 ∷ 48 ∷ 48 ∷ 48 ∷ []
unfolding show_nat digits_on
clock = refl
