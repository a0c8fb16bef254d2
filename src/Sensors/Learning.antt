-- ===== src/Sensors/Learning.antt =====
-- When an inverted alarm is learned: the set of bits over the cycles (binary_sensor.py, coordinator.py).
use delonghi_ha.Prelude.{
  ◌≡◌, refl, sym, ap, ◌∙◌, ℕ, ◌*◌, ◌^◌, bit_and, List, [], ◌∷◌, ◌++◌, Bool, true, false, not, ◌&&◌,
  ◌||◌, ◌==◌, Option, none, some, if◌then◌else◌, if_rule, ==_iff, arith, Bool-cases, ◌⊎◌, inl, inr,
}
use delonghi_ha.Ecam.Monitor.{MachineState}
use delonghi_ha.Coordinator.Assess.{
  holds_bit, add_bit, seed_from, seed_bits, inverted_bits, is_normal,
}
use delonghi_ha.Sensors.Counter.{has_value}
use delonghi_ha.Sensors.Alarm.{
  has_bit, available, alarm_is_on, SensorCycle, write_states, cycle, cycles,
}

-- Whether a cycle shows the bit where somebody looks.
abbrev pub word_has : ℕ → Option ℕ → Bool
word_has bit none = false
word_has bit (some word) = has_bit bit word

abbrev pub shows : ℕ → SensorCycle → Bool
shows bit c = word_has bit c.word && (c.updated || is_normal c.state)

abbrev pub any_shows : ℕ → List SensorCycle → Bool
any_shows bit [] = false
any_shows bit (c ∷ later) = shows bit c || any_shows bit later

same_bit : (b c : ℕ) (bits : List ℕ) → (b == c) ≡ true → holds_bit b bits ≡ holds_bit c bits
same_bit b c bits e = ap (λ (x : ℕ). holds_bit x bits) ((==_iff b c).0 e)

or_absorb : (a b : Bool) → (a ≡ true → b ≡ true) → b ≡ (a || b)
or_absorb true b h = h refl
or_absorb false b h = refl

holds_bit-add_bit :
    (b c : ℕ) (bits : List ℕ) → holds_bit b (add_bit c bits) ≡ ((b == c) || holds_bit b bits)
unfolding holds_bit add_bit
holds_bit-add_bit b c bits =
    if_rule (λ (out : List ℕ). holds_bit b out ≡ ((b == c) || holds_bit b bits)) (holds_bit c bits)
      (λ h. or_absorb (b == c) (holds_bit b bits) (λ e. same_bit b c bits e ∙ h)) (λ h. refl)

-- The set after one more word, and after a sensor was asked.
module _ (b c : ℕ) (seen : List ℕ) where
  holds_bit-seed :
      (word : ℕ)
      → holds_bit b (if bit_and word (1 * 2 ^ c) == 0 then seen else add_bit c seen)
        ≡ (((b == c) && has_bit c word) || holds_bit b seen)
  unfolding has_bit
  holds_bit-seed word =
      if_rule
        (λ (out : List ℕ). holds_bit b out ≡ (((b == c) && has_bit c word) || holds_bit b seen))
        (bit_and word (1 * 2 ^ c) == 0) (λ h. ground (arith, h))
        (λ h. holds_bit-add_bit b c seen ∙ ground (arith, h))

  holds_bit-available :
      (updated : Bool) (word : Option ℕ)
      → holds_bit b (available c true updated word seen).1
        ≡ (((b == c) && (word_has c word && updated)) || holds_bit b seen)
  unfolding available
  holds_bit-available true none = ground arith
  holds_bit-available false none = ground arith
  holds_bit-available false (some word) = ground arith
  holds_bit-available true (some word) =
      if_rule
        (λ (out : Bool × List ℕ).
          holds_bit b out.1 ≡ (((b == c) && (has_bit c word && true)) || holds_bit b seen))
        (not (holds_bit c seen))
        (λ h.
          if_rule
            (λ (out : Bool × List ℕ).
              holds_bit b out.1 ≡ (((b == c) && (has_bit c word && true)) || holds_bit b seen))
            (has_bit c word) (λ k. holds_bit-add_bit b c seen ∙ ground (arith, k))
            (λ k. ground (arith, k)))
        (λ h. ground (arith, h, same_bit b c seen))

abbrev pub is_inverted : ℕ → Bool
is_inverted b = holds_bit b inverted_bits

inverted_cases : (b : ℕ) → is_inverted b ≡ true → (b ≡ 13) ⊎ (b ≡ 18)
unfolding holds_bit
inverted_cases b h = elim (Bool-cases (b == 13)) [
  | inl e ↦ inl ((==_iff b 13).0 e)
  | inr e ↦ inr (ground (arith, e, h))
]

module _ (b : ℕ) where
  holds_bit-seed_bits :
      (word : Option ℕ) (normal : Bool) (state : MachineState) (seen : List ℕ)
      → is_normal state ≡ normal
      → holds_bit b (seed_bits word state seen) ≡ (
          ((b == 18) && (word_has 18 word && normal))
          || (((b == 13) && (word_has 13 word && normal)) || holds_bit b seen))
  unfolding seed_bits seed_from
  holds_bit-seed_bits none normal state seen e = ground arith
  holds_bit-seed_bits (some word) true state seen e =
      ap (λ (n : Bool). holds_bit b (if n then seed_from word inverted_bits seen else seen)) e
      ∙ holds_bit-seed b 18 _ word
      ∙ ap (λ (x : Bool). ((b == 18) && has_bit 18 word) || x) (holds_bit-seed b 13 seen word)
      ∙ ground arith
  holds_bit-seed_bits (some word) false state seen e =
      ap (λ (n : Bool). holds_bit b (if n then seed_from word inverted_bits seen else seen)) e
      ∙ ground arith

  holds_bit-cycle :
      (c : SensorCycle) (seen : List ℕ)
      → is_inverted b ≡ true
      → holds_bit b (cycle c seen) ≡ (shows b c || holds_bit b seen)
  unfolding cycle write_states
  holds_bit-cycle c seen inverted =
      holds_bit-available b 18 _ c.updated c.word
      ∙ ap (λ (x : Bool). ((b == 18) && (word_has 18 c.word && c.updated)) || x)
          (holds_bit-available b 13 _ c.updated c.word
            ∙ ap (λ (x : Bool). ((b == 13) && (word_has 13 c.word && c.updated)) || x)
                (holds_bit-seed_bits c.word (is_normal c.state) c.state seen refl))
      ∙ gather (inverted_cases b inverted)
    where
      gather :
          (b ≡ 13) ⊎ (b ≡ 18)
          → (((b == 18) && (word_has 18 c.word && c.updated))
              || (((b == 13) && (word_has 13 c.word && c.updated))
                  || (((b == 18) && (word_has 18 c.word && is_normal c.state))
                      || (((b == 13) && (word_has 13 c.word && is_normal c.state))
                          || holds_bit b seen))))
            ≡ (shows b c || holds_bit b seen)
      gather (inl e) = ground (arith, e, ap (λ (x : ℕ). word_has x c.word) e)
      gather (inr e) = ground (arith, e, ap (λ (x : ℕ). word_has x c.word) e)

  holds_bit-cycles :
      (later : List SensorCycle) (seen : List ℕ)
      → is_inverted b ≡ true
      → holds_bit b (cycles later seen) ≡ (any_shows b later || holds_bit b seen)
  unfolding cycles
  holds_bit-cycles [] seen h = refl
  holds_bit-cycles (c ∷ later) seen h =
      holds_bit-cycles later (cycle c seen) h
      ∙ ap (λ (x : Bool). any_shows b later || x) (holds_bit-cycle c seen h)
      ∙ ground arith

any_shows-append :
    (b : ℕ) (before : List SensorCycle) (c : SensorCycle)
    → any_shows b (before ++ (c ∷ [])) ≡ (any_shows b before || shows b c)
any_shows-append b [] c = ground arith
any_shows-append b (x ∷ before) c =
    ap (λ (y : Bool). shows b x || y) (any_shows-append b before c) ∙ ground arith

available-seen :
    (b : ℕ) (word : Option ℕ) (updated any : Bool) (seen : List ℕ)
    → holds_bit b seen ≡ any
    → ((word_has b word && updated) ≡ true → any ≡ true)
    → (available b true updated word seen).0 ≡ (updated && (has_value word && any))
unfolding available
available-seen b word false any seen e h = refl
available-seen b none true any seen e h = refl
available-seen b (some word) true any seen e h =
    if_rule (λ (out : Bool × List ℕ). out.0 ≡ any) (not (holds_bit b seen))
      (λ k.
        if_rule (λ (out : Bool × List ℕ). out.0 ≡ any) (has_bit b word)
          (λ t. sym (h (ground (arith, t)))) (λ t. ground (arith, e, k)))
      (λ k. ground (arith, e, k))

-- Whether the alarm is raised: the sensor is available, and on.
abbrev pub says_true : Option Bool → Bool
says_true none = false
says_true (some b) = b

abbrev pub raised : ℕ → SensorCycle → List ℕ → Bool
raised b c seen =
    (available b true c.updated c.word seen).0 && says_true (alarm_is_on b true c.word)

raised-seen :
    (b : ℕ) (word : Option ℕ) (updated all any now : Bool)
    → all ≡ (any || now)
    → (word_has b word ≡ false → now ≡ false)
    → ((updated && (has_value word && all)) && says_true (alarm_is_on b true word))
      ≡ (updated && (has_value word && (not (word_has b word) && any)))
unfolding alarm_is_on
raised-seen b none updated all any now e h = ground arith
raised-seen b (some word) updated all any now e h = elim (Bool-cases (has_bit b word)) [
  | inl k ↦ ground (arith, k)
  | inr k ↦ ground (arith, k, e, h k)
]

-- Take an inverted bit and some cycles that began with no bit seen. After them its sensor is
-- available exactly when the coordinator's last update succeeded, there is an alarm word, and some
-- word up to this one had the bit set, in a cycle whose update succeeded or whose state was ready,
-- brewing or heating. And the alarm is raised exactly when the last update succeeded with a word
-- that lacks the bit and the bit was seen so in an earlier cycle: a machine that never sets it
-- never raises it.
pub alarm_lem :
    (b : ℕ) (before : List SensorCycle) (c : SensorCycle)
    → is_inverted b ≡ true
    → ((available b true c.updated c.word (cycles (before ++ (c ∷ [])) [])).0
        ≡ (c.updated && (has_value c.word && any_shows b (before ++ (c ∷ [])))))
      × (raised b c (cycles (before ++ (c ∷ [])) [])
          ≡ (c.updated && (has_value c.word && (not (word_has b c.word) && any_shows b before))))
unfolding holds_bit
alarm_lem b before c h = (
  asked,
  ap (λ (x : Bool). x && says_true (alarm_is_on b true c.word)) asked
      ∙ raised-seen b c.word c.updated _ _ (shows b c) (any_shows-append b before c)
          (λ e. ground (arith, e)),
)
  where
    held : holds_bit b (cycles (before ++ (c ∷ [])) []) ≡ any_shows b (before ++ (c ∷ []))
    held = holds_bit-cycles b (before ++ (c ∷ [])) [] h ∙ ground arith

    shown : (word_has b c.word && c.updated) ≡ true → any_shows b (before ++ (c ∷ [])) ≡ true
    shown e = any_shows-append b before c ∙ ground (arith, e)

    asked :
        (available b true c.updated c.word (cycles (before ++ (c ∷ [])) [])).0
        ≡ (c.updated && (has_value c.word && any_shows b (before ++ (c ∷ []))))
    asked = available-seen b c.word c.updated _ _ held shown
