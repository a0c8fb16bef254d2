-- ===== src/Cloud/Retry/Delays.antt =====
-- How long the decorator waits, and when.
use delonghi_ha.Prelude.{
  ℕ, zero, suc, ◌+◌, ◌-◌, ◌*◌, ◌^◌, ◌≤◌, List, [], ◌∷◌, ◌++◌, append_assoc, Bool, true, false, ◌==◌,
  ◌≡◌, ◌≢◌, refl, sym, ◌∙◌, ap, ◌⊎◌, inl, inr, arith, length, length-append,
}
use mathlib.Core.Path.{subst, subst⁻¹}
use native.Mathlib.Nat.{le_refl, pow-suc}
use delonghi_ha.Prelude.Raise.{
  Exception, auth, api, unsupported, value_error, index_error, key_error, transport, http, Result,
  ok, raise,
}
use delonghi_ha.Cloud.Retry.{
  Client, authenticated, reauth, backoff, handle, retry_loop, retry, retry_delay,
}
use delonghi_ha.Cloud.Retry.Rule.{loop_rule}

-- The errors that are tried again with no new authentication, and the delays for them.
abbrev pub IsTransient : Exception → List ℕ → Type 0
IsTransient (http code) delays =
    ((code ≡ 429) × (delays ≡ 4 ∷ 8 ∷ 16 ∷ []))
    ⊎ ((code ≢ 429) × (code ≢ 401) × (code ≢ 404) × (delays ≡ 2 ∷ 4 ∷ []))
IsTransient transport delays = delays ≡ 2 ∷ 4 ∷ []
IsTransient api delays = delays ≡ 2 ∷ 4 ∷ []
IsTransient auth delays = ⊥
IsTransient unsupported delays = ⊥
IsTransient value_error delays = ⊥
IsTransient index_error delays = ⊥
IsTransient key_error delays = ⊥

abbrev pub sum : List ℕ → ℕ
sum [] = 0
sum (x ∷ xs) = x + sum xs

sum-snoc : (xs : List ℕ) (y : ℕ) → sum (xs ++ (y ∷ [])) ≡ sum xs + y
sum-snoc [] y = omega arith
sum-snoc (x ∷ xs) y = omega (arith, sum-snoc xs y)

half_delay : (n : ℕ) → retry_delay * 2 ^ (n - 1) ≤ retry_delay * 2 ^ n
half_delay zero = omega arith
half_delay (suc n) =
    omega (arith, pow-suc 2 n, ap (λ (k : ℕ). 2 ^ k) {x = suc n - 1} {y = n} (omega arith))

module _ {W A : Type 0} (func : Client W → Result A × Client W)
    (authenticate : Client W → Result Bool × Client W) (monotonic : Client W → ℕ) where
  authenticated-slept :
      (s : Result Bool × Client W)
      → (authenticated func authenticate monotonic s).1.slept ≡ s.1.slept
  unfolding authenticated
  authenticated-slept (ok done, c) = refl
  authenticated-slept (raise e, c) = refl

  reauth-slept :
      ((c : Client W) → (authenticate c).1.slept ≡ c.slept)
      → (c : Client W) → (reauth func authenticate monotonic c).1.slept ≡ c.slept
  unfolding reauth
  reauth-slept quiet c = ground (
    arith,
    authenticated-slept (authenticate (record c { reauthenticating = true })),
    quiet (record c { reauthenticating = true }),
  )

  -- Any delay before the last call, and after it a delay if the status was 429.
  abbrev budget : ℕ → ℕ → ℕ
  budget zero n = 0
  budget (suc l) n = retry_delay * 2 ^ n + budget l (n + 1)

  -- The decorator sleeps at most three times and for at most 28 seconds in all, whatever fails, if
  -- the function and `authenticate` do not sleep themselves.
  pub retry-slept :
      ((c : Client W) → (func c).1.slept ≡ c.slept)
      → ((c : Client W) → (authenticate c).1.slept ≡ c.slept)
      → (c : Client W)
      → (sum (retry func authenticate monotonic c).1.slept ≤ sum c.slept + 28)
        × (length (retry func authenticate monotonic c).1.slept ≤ length c.slept + 3)
  unfolding retry
  retry-slept quiet auth_quiet c =
      loop_rule func authenticate monotonic (λ l n d. Within (budget l n) l d.slept)
        (λ l n d. Within (budget (suc l) n) (suc l) d.slept)
        (λ o. (sum o.1.slept ≤ sum c.slept + 28) × (length o.1.slept ≤ length c.slept + 3))
        (λ l n d h. subst⁻¹ (Within (budget (suc l) n) (suc l)) (quiet d) h)
        (λ l n d e h eq. subst (Within (budget (suc l) n) (suc l)) (kept d e _ eq) h)
        (λ l n d h. snoc _ (retry_delay * 2 ^ n) _ l d.slept (le_refl _) h)
        (λ l n d h. snoc _ (retry_delay * 2 ^ n) _ l d.slept (half_delay n) h)
        (λ l n d h. relax _ _ l l d.slept (omega arith) h)
        (λ l n d a h e. (omega arith, omega arith)) (λ l n d e h eq k. (omega arith, omega arith))
        (λ l n d f e h eq.
          within_end l n f.slept (subst (Within (budget (suc l) n) (suc l)) (kept d f _ eq) h))
        (λ n d h. (omega arith, omega arith)) 3 1 c (omega arith, omega arith)
    where
      Within : ℕ → ℕ → List ℕ → Type 0
      Within delay count slept =
          (sum slept + delay ≤ sum c.slept + 28) × (length slept + count ≤ length c.slept + 3)

      within_end :
          (l n : ℕ) (slept : List ℕ)
          → Within (budget (suc l) n) (suc l) slept
          → (sum slept ≤ sum c.slept + 28) × (length slept ≤ length c.slept + 3)
      within_end l n slept h = (omega arith, omega arith)

      kept :
          (d e : Client W) (r : Result (Unit {0}))
          → reauth func authenticate monotonic d ≡ (r, e)
          → d.slept ≡ e.slept
      kept d e r eq = sym (reauth-slept auth_quiet d) ∙ ap (λ o. o.1.slept) eq

      relax :
          (more delay count count' : ℕ) (slept : List ℕ)
          → delay ≤ more
          → Within more (suc count) slept
          → Within delay count slept
      relax more delay count count' slept le h = (omega arith, omega arith)

      snoc :
          (x delay rest count : ℕ) (slept : List ℕ)
          → x ≤ delay
          → Within (delay + rest) (suc count) slept
          → Within rest count (slept ++ (x ∷ []))
      snoc x delay rest count slept le h =
          (omega (arith, sum-snoc slept x), omega (arith, length-append {0} slept (x ∷ [])))

  -- A status of 429 at every call is slept on for 4, 8 and 16 seconds, and then it is the API error;
  -- any other error that is tried again, but 401, is slept on for 2 and 4 seconds.
  pub retry_exhausts :
      (e : Exception) (delays : List ℕ)
      → IsTransient e delays
      → ((c : Client W) → func c ≡ (raise e, c))
      → (c : Client W)
      → ((retry func authenticate monotonic c).0 ≡ raise api)
        × ((retry func authenticate monotonic c).1.slept ≡ c.slept ++ delays)
  unfolding retry retry_loop handle backoff
  retry_exhausts (http code) delays (inl (is, h)) fails c =
      let limited : (d : Client W) → func d ≡ (raise (http 429), d) =
        λ d. fails d ∙ ap (λ (n : ℕ). (raise (http n), d)) is in
      (simp limited refl, simp (limited, append_assoc, h) refl)
  retry_exhausts (http code) delays (inr (not_429, not_401, not_404, h)) fails c =
      let k1 : (code == 429) ≡ false = ground arith in
      let k2 : (code == 401) ≡ false = ground arith in
      let k3 : (code == 404) ≡ false = ground arith in
      (simp (fails, k1, k2, k3) refl, simp (fails, k1, k2, k3, append_assoc, h) refl)
  retry_exhausts transport delays h fails c = (simp fails refl, simp (fails, append_assoc, h) refl)
  retry_exhausts api delays h fails c = (simp fails refl, simp (fails, append_assoc, h) refl)
  retry_exhausts auth delays h fails c = absurd h
  retry_exhausts unsupported delays h fails c = absurd h
  retry_exhausts value_error delays h fails c = absurd h
  retry_exhausts index_error delays h fails c = absurd h
  retry_exhausts key_error delays h fails c = absurd h
