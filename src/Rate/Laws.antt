-- ===== src/Rate/Laws.antt =====
-- The tracker counts the calls of its window, whatever it has dropped.
use delonghi_ha.Prelude.{
  ℕ, ◌+◌, ◌≤◌, List, [], ◌∷◌, ◌++◌, ltb, length, length-append, All, All-append, ◌≡◌, refl, ◌∙◌, ap,
  sym, arith, if_rule, if◌then◌else◌,
}
use delonghi_ha.Rate.{Tracker, expire, record_call}

-- The calls of the window that ends now.
abbrev pub recent : ℕ → ℕ → List ℕ → List ℕ
recent now window [] = []
recent now window (c ∷ rest) =
    if ltb (c + window) now then recent now window rest else c ∷ recent now window rest

abbrev pub IsAscending : List ℕ → Type 0
IsAscending [] = Unit
IsAscending (c ∷ rest) = All (λ d. c ≤ d) rest × IsAscending rest

-- The tracker stands for the history of all calls, the last event at `time`: it holds those of the
-- window that ended then, and their number is the total.
pub record Tracks (history : List ℕ) (time : ℕ) (t : Tracker) : Type 0 where
  pub ascending : IsAscending history
  pub past : All (λ d. d ≤ time) history
  pub held : t.calls ≡ recent time t.window history
  pub counted : t.total ≡ length history

recent_later :
    (now window c : ℕ) (rest : List ℕ)
    → now ≤ c + window
    → All (λ d. c ≤ d) rest
    → recent now window rest ≡ rest
recent_later now window c [] h k = refl
recent_later now window c (d ∷ rest) h k = ground (arith, recent_later now window c rest h k.1, k.0)

expire-recent :
    (now window : ℕ) (xs : List ℕ) → IsAscending xs → expire now window xs ≡ recent now window xs
unfolding expire
expire-recent now window [] h = refl
expire-recent now window (c ∷ rest) h =
    if_rule (λ b. b ≡ recent now window (c ∷ rest)) (ltb (c + window) now)
      (λ k. rw k (expire-recent now window rest h.1))
      (λ k.
        let near : now ≤ c + window = ground arith in
        rw (k, recent_later now window c rest near h.0) refl)

recent-again :
    (time now window : ℕ) (xs : List ℕ)
    → time ≤ now
    → recent now window (recent time window xs) ≡ recent now window xs
recent-again time now window [] h = refl
recent-again time now window (c ∷ rest) h = ground (arith, recent-again time now window rest h)

recent-append :
    (now window : ℕ) (xs ys : List ℕ)
    → recent now window (xs ++ ys) ≡ recent now window xs ++ recent now window ys
recent-append now window [] ys = refl
recent-append now window (c ∷ rest) ys = ground (arith, recent-append now window rest ys)

recent-All :
    (P : ℕ → Type 0) (now window : ℕ) (xs : List ℕ) → All P xs → All P (recent now window xs)
recent-All P now window [] h = tt
recent-All P now window (c ∷ rest) h =
    if_rule (All P) (ltb (c + window) now) (λ k. recent-All P now window rest h.1)
      (λ k. (h.0, recent-All P now window rest h.1))

recent-IsAscending :
    (now window : ℕ) (xs : List ℕ) → IsAscending xs → IsAscending (recent now window xs)
recent-IsAscending now window [] h = tt
recent-IsAscending now window (c ∷ rest) h =
    if_rule IsAscending (ltb (c + window) now) (λ k. recent-IsAscending now window rest h.1)
      (λ k. (recent-All _ now window rest h.0, recent-IsAscending now window rest h.1))

snoc-IsAscending :
    (now : ℕ) (xs : List ℕ)
    → IsAscending xs
    → All (λ d. d ≤ now) xs
    → IsAscending (xs ++ (now ∷ []))
snoc-IsAscending now [] h k = (tt, tt)
snoc-IsAscending now (c ∷ rest) h k =
    (All-append _ rest (now ∷ []) h.0 (k.0, tt), snoc-IsAscending now rest h.1 k.1)

weaken : (time now : ℕ) (xs : List ℕ) → time ≤ now → All (λ d. d ≤ time) xs → All (λ d. d ≤ now) xs
weaken time now [] h k = tt
weaken time now (c ∷ rest) h k = (omega arith, weaken time now rest h k.1)

-- The rate that a recorded call returns is the number of all calls so far, this one included, that
-- lie in the window; and the tracker then stands for the history with this call. The calls that were
-- dropped before play no part.
pub record_call-Tracks :
    (history : List ℕ) (time now : ℕ) (t : Tracker)
    → Tracks history time t
    → time ≤ now
    → ((record_call now t).0 ≡ length (recent now t.window (history ++ (now ∷ []))))
      × Tracks (history ++ (now ∷ [])) now (record_call now t).1
unfolding record_call
record_call-Tracks history time now t h le = (
  ap length held,
  record {
    ascending = snoc-IsAscending now history h.ascending past;
    past = All-append _ history (now ∷ []) past (omega arith);
    held = held;
    counted = omega (arith, h.counted, length-append {0} history (now ∷ []));
  },
)
  where
    past : All (λ d. d ≤ now) history
    past = weaken time now history le h.past

    held : expire now t.window (t.calls ++ (now ∷ [])) ≡ recent now t.window (history ++ (now ∷ []))
    held =
        ap (λ cs. expire now t.window (cs ++ (now ∷ []))) h.held
        ∙ expire-recent now t.window _ (
            snoc-IsAscending now _ (recent-IsAscending time t.window history h.ascending)
              (recent-All _ time t.window history past))
        ∙ recent-append now t.window (recent time t.window history) (now ∷ [])
        ∙ ap (λ cs. cs ++ recent now t.window (now ∷ []))
            (recent-again time now t.window history le)
        ∙ sym (recent-append now t.window history (now ∷ []))
