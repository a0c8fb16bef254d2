-- ===== src/Ecam/Monitor/Laws.antt =====
-- The alarm word and the alarms against the bytes of the payload.
use native.Mathlib.Nat.{one-le-pow}
use delonghi_ha.Prelude.{
  ℕ, zero, suc, ◌+◌, ◌*◌, ◌/◌, ◌%◌, ◌^◌, ◌<◌, ◌≤◌, bit_and, List, [], ◌∷◌, Bool, not, ◌==◌, ltb,
  some, ◌≡◌, refl, ap, ◌∙◌, arith, All, length, get_or, Bool-cases, inl, inr, if◌then◌else◌,
}
use delonghi_ha.Prelude.Bits.{bit_and_pow, bit_and_mask, bit_or_fields, bit_or_comm}
use delonghi_ha.Prelude.Int.{IsByte}
use delonghi_ha.Ecam.Monitor.{
  Alarm, all_alarms, active_alarms, alarm_word_of, no_monitor, parse_monitor,
}

-- The alarm word of four bytes is their little-endian value.
pub alarm_word_lem :
    (b0 b1 b2 b3 : ℕ)
    → b0 < 256
    → b1 < 256
    → b2 < 256
    → b3 < 256
    → alarm_word_of b0 b1 b2 b3 ≡ b0 + b1 * 2 ^ 8 + b2 * 2 ^ 16 + b3 * 2 ^ 24
unfolding alarm_word_of
alarm_word_lem b0 b1 b2 b3 h0 h1 h2 h3 = ground (
  arith,
  bit_and_mask 8 b0,
  bit_and_mask 8 b1,
  bit_and_mask 8 b2,
  bit_and_mask 8 b3,
  bit_or_comm b0 (b1 * 2 ^ 8),
  bit_or_fields 8 b1 b0 (omega arith),
  bit_or_comm (b1 * 2 ^ 8 + b0) (b2 * 2 ^ 16),
  bit_or_fields 16 b2 (b1 * 2 ^ 8 + b0) (omega arith),
  bit_or_comm (b2 * 2 ^ 16 + (b1 * 2 ^ 8 + b0)) (b3 * 2 ^ 24),
  bit_or_fields 24 b3 (b2 * 2 ^ 16 + (b1 * 2 ^ 8 + b0)) (omega arith),
)

-- The byte of the payload that holds a bit of the alarm word.
abbrev pub byte_of_bit : ℕ → ℕ
byte_of_bit bit = if ltb bit 8 then 7 else if ltb bit 16 then 8 else if ltb bit 24 then 12 else 13

abbrev pub is_set : List ℕ → ℕ → Bool
is_set raw bit = get_or raw (byte_of_bit bit) 0 / 2 ^ (bit % 8) % 2 == 1

-- The members that pass a test, in order.
abbrev pub select {ℓ} : {A : Type ℓ} → (A → Bool) → List A → List A
select test [] = []
select test (x ∷ xs) = if test x then x ∷ select test xs else select test xs

mask_test : (word bit : ℕ) → (bit_and word (1 * 2 ^ bit) == 0) ≡ not (word / 2 ^ bit % 2 == 1)
mask_test word bit =
    let masked : bit_and word (1 * 2 ^ bit) ≡ word / 2 ^ bit % 2 * 2 ^ bit =
      ap (bit_and word) {x = 1 * 2 ^ bit} {y = 2 ^ bit} (omega arith) ∙ bit_and_pow bit word in
    rw masked (cases (word / 2 ^ bit % 2) (2 ^ bit) (one-le-pow bit 2 (omega arith)) (omega arith))
  where
    cases : (t p : ℕ) → 1 ≤ p → t < 2 → (t * p == 0) ≡ not (t == 1)
    cases zero p h k = ground arith
    cases (suc zero) p h k = ground arith
    cases (suc (suc t)) p h k = absurd (omega arith)

active_alarms-select :
    (word : ℕ) (alarms : List Alarm)
    → active_alarms word alarms ≡ select (λ a. word / 2 ^ a.bit % 2 == 1) alarms
unfolding active_alarms
active_alarms-select word [] = refl
active_alarms-select word (a ∷ rest) =
    rw (mask_test word a.bit) (ground (arith, active_alarms-select word rest))

select_ext {ℓ} :
    {A : Type ℓ} (f g : A → Bool) (xs : List A)
    → All (λ x. f x ≡ g x) xs
    → select f xs ≡ select g xs
select_ext f g [] h = refl
select_ext f g (x ∷ xs) h = rw (h.0, select_ext f g xs h.1)

-- One of four values, by the byte that a bit lies in.
abbrev by_byte : ℕ → ℕ → ℕ → ℕ → ℕ → ℕ
by_byte b0 b1 b2 b3 bit =
    if ltb bit 8 then b0 else if ltb bit 16 then b1 else if ltb bit 24 then b2 else b3

bits_of_bytes :
    (b0 b1 b2 b3 : ℕ)
    → b0 < 256
    → b1 < 256
    → b2 < 256
    → b3 < 256
    → let word = b0 + b1 * 2 ^ 8 + b2 * 2 ^ 16 + b3 * 2 ^ 24 in
      All (λ a. word / 2 ^ a.bit % 2 ≡ by_byte b0 b1 b2 b3 a.bit / 2 ^ (a.bit % 8) % 2) all_alarms
bits_of_bytes b0 b1 b2 b3 h0 h1 h2 h3 = omega arith

All-map {ℓ κ ι} :
    {A : Type ℓ} (P : A → Type κ) (Q : A → Type ι) (xs : List A)
    → ((x : A) → P x → Q x)
    → All P xs
    → All Q xs
All-map P Q [] f h = tt
All-map P Q (x ∷ xs) f h = (f x h.0, All-map P Q xs f h.1)

get_or-IsByte : (xs : List ℕ) (i : ℕ) → All IsByte xs → get_or xs i 0 < 256
get_or-IsByte [] i h = omega arith
get_or-IsByte (x ∷ xs) zero h = h.0
get_or-IsByte (x ∷ xs) (suc i) h = get_or-IsByte xs i h.1

-- The little-endian value of the four alarm bytes.
abbrev pub word_of : List ℕ → ℕ
word_of raw =
    get_or raw 7 0 + get_or raw 8 0 * 2 ^ 8 + get_or raw 12 0 * 2 ^ 16 + get_or raw 13 0 * 2 ^ 24

by_byte-get_or :
    (raw : List ℕ) (bit : ℕ)
    → by_byte (get_or raw 7 0) (get_or raw 8 0) (get_or raw 12 0) (get_or raw 13 0) bit
      ≡ get_or raw (byte_of_bit bit) 0
by_byte-get_or raw bit = ground arith

-- A payload of bytes, at least 14 of them, has as its alarm word the little-endian value of the bytes
-- 7, 8, 12 and 13, and its alarms are those of the table whose bit is set in the byte that holds it; a
-- shorter payload has neither.
pub parse_monitor_lem :
    (raw : List ℕ)
    → All IsByte raw
    → (if ltb (length raw) 14
        then parse_monitor raw ≡ no_monitor
        else ((parse_monitor raw).alarm_word ≡ some (word_of raw))
          × ((parse_monitor raw).alarms ≡ select (λ a. is_set raw a.bit) all_alarms))
unfolding parse_monitor
parse_monitor_lem raw bytes =
    let word =
      alarm_word_lem (get_or raw 7 0) (get_or raw 8 0) (get_or raw 12 0) (get_or raw 13 0)
        (get_or-IsByte raw 7 bytes) (get_or-IsByte raw 8 bytes) (get_or-IsByte raw 12 bytes)
        (get_or-IsByte raw 13 bytes) in
    elim (Bool-cases (ltb (length raw) 14)) [
      | inl short ↦ rw short refl
      | inr long ↦ rw (long, word) (refl, active_alarms-select (word_of raw) all_alarms ∙ same)
    ]
  where
    same :
        select (λ a. word_of raw / 2 ^ a.bit % 2 == 1) all_alarms
        ≡ select (λ a. is_set raw a.bit) all_alarms
    same =
        select_ext (λ a. word_of raw / 2 ^ a.bit % 2 == 1) (λ a. is_set raw a.bit) all_alarms
          (All-map
            (λ a.
              word_of raw / 2 ^ a.bit % 2
              ≡ by_byte (get_or raw 7 0) (get_or raw 8 0) (get_or raw 12 0) (get_or raw 13 0) a.bit
                / 2 ^ (a.bit % 8)
                % 2)
            (λ a. (word_of raw / 2 ^ a.bit % 2 == 1) ≡ is_set raw a.bit) all_alarms
            (λ a e.
              ap (λ t. t == 1) (e ∙ ap (λ t. t / 2 ^ (a.bit % 8) % 2) (by_byte-get_or raw a.bit)))
            (bits_of_bytes (get_or raw 7 0) (get_or raw 8 0) (get_or raw 12 0) (get_or raw 13 0)
              (get_or-IsByte raw 7 bytes) (get_or-IsByte raw 8 bytes) (get_or-IsByte raw 12 bytes)
              (get_or-IsByte raw 13 bytes)))
