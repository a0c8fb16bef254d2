-- ===== src/Cloud/Retry/Rule.antt =====
-- A rule for the loop of `_retry`: what holds of the result if each way out of the handlers keeps it.
use delonghi_ha.Prelude.{
  ℕ, zero, suc, ◌+◌, ◌-◌, ◌*◌, ◌^◌, [], ◌∷◌, ◌++◌, Bool, ◌==◌, ltb, ◌≡◌, refl, ◌⊎◌, inl, inr,
  if_rule, ==_iff,
}
use mathlib.Core.Path.{subst⁻¹}
use delonghi_ha.Prelude.Raise.{
  Exception, auth, api, unsupported, value_error, index_error, key_error, transport, http, Result,
  ok, raise,
}
use delonghi_ha.Cloud.Retry.{Client, reauth, after_reauth, backoff, handle, retry_loop, retry_delay}

-- What the handlers raise again at once.
abbrev pub IsDefinitive : Exception → Type 0
IsDefinitive auth = Unit
IsDefinitive unsupported = Unit
IsDefinitive value_error = Unit
IsDefinitive index_error = Unit
IsDefinitive key_error = Unit
IsDefinitive api = ⊥
IsDefinitive transport = ⊥
IsDefinitive (http code) = code ≡ 404

module _ {W A : Type 0} (func : Client W → Result A × Client W)
    (authenticate : Client W → Result Bool × Client W) (monotonic : Client W → ℕ) where
  after_rule :
      (Post : Result A × Client W → Type 0) (c : Client W) (attempt : ℕ)
      (continue : Client W → Result A × Client W) (s : Result (Unit {0}) × Client W)
      → reauth func authenticate monotonic c ≡ s
      → ((e : Exception) (d : Client W)
          → reauth func authenticate monotonic c ≡ (raise e, d)
          → Post (raise e, d))
      → ((d : Client W)
          → (d ≡ c) ⊎ (reauth func authenticate monotonic c ≡ (ok tt, d))
          → Post (backoff func authenticate monotonic attempt d continue))
      → Post (after_reauth func authenticate monotonic s attempt continue)
  unfolding after_reauth
  after_rule Post c attempt continue (ok done, d) e refused transient = transient d (inr e)
  after_rule Post c attempt continue (raise x, d) e refused transient = refused x d e

  -- A claim on the outcome of one call's handlers, way out by way out.
  handle_rule :
      (Post : Result A × Client W → Type 0) (r : Result A) (c : Client W) (attempt : ℕ)
      (continue : Client W → Result A × Client W)
      → ((a : A) → r ≡ ok a → Post (ok a, c))
      → ((e : Exception) → r ≡ raise e → IsDefinitive e → Post (raise e, c))
      → ((e : Exception) (d : Client W)
          → reauth func authenticate monotonic c ≡ (raise e, d)
          → Post (raise e, d))
      → Post (continue (record c { slept = c.slept ++ (retry_delay * 2 ^ attempt ∷ []) }))
      → ((d : Client W)
          → (d ≡ c) ⊎ (reauth func authenticate monotonic c ≡ (ok tt, d))
          → Post (backoff func authenticate monotonic attempt d continue))
      → Post (handle func authenticate monotonic (r, c) attempt continue)
  unfolding handle
  handle_rule Post (ok a) c attempt continue done stop refused limited transient = done a refl
  handle_rule Post (raise auth) c attempt continue done stop refused limited transient =
      stop auth refl tt
  handle_rule Post (raise api) c attempt continue done stop refused limited transient =
      transient c (inl refl)
  handle_rule Post (raise unsupported) c attempt continue done stop refused limited transient =
      stop unsupported refl tt
  handle_rule Post (raise value_error) c attempt continue done stop refused limited transient =
      stop value_error refl tt
  handle_rule Post (raise index_error) c attempt continue done stop refused limited transient =
      stop index_error refl tt
  handle_rule Post (raise key_error) c attempt continue done stop refused limited transient =
      stop key_error refl tt
  handle_rule Post (raise transport) c attempt continue done stop refused limited transient =
      transient c (inl refl)
  handle_rule Post (raise (http code)) c attempt continue done stop refused limited transient =
      if_rule Post (code == 404) (λ h. stop (http code) refl ((==_iff code 404).0 h))
        (λ not_missing.
          if_rule Post (code == 401)
            (λ h. after_rule Post c attempt continue _ refl refused transient)
            (λ known. if_rule Post (code == 429) (λ h. limited) (λ h. transient c (inl refl))))

  -- The handlers leave the loop to go on, at once or after a delay.
  backoff_rule :
      (Post : Result A × Client W → Type 0) (attempt : ℕ) (d : Client W)
      (continue : Client W → Result A × Client W)
      → Post (continue (record d { slept = d.slept ++ (retry_delay * 2 ^ (attempt - 1) ∷ []) }))
      → Post (continue d)
      → Post (backoff func authenticate monotonic attempt d continue)
  unfolding backoff
  backoff_rule Post attempt d continue waited at_once =
      if_rule Post (ltb attempt 3) (λ h. waited) (λ h. at_once)

  -- An invariant of the loop: `Inv` before a call, with the calls left and the number of the next,
  -- and `Mid` after the call.
  module _ (Inv Mid : ℕ → ℕ → Client W → Type 0) (Post : Result A × Client W → Type 0)
      (called : (l n : ℕ) (c : Client W) → Inv (suc l) n c → Mid l n (func c).1)
      (reauthed : (l n : ℕ) (d e : Client W)
        → Mid l n d
        → reauth func authenticate monotonic d ≡ (ok tt, e)
        → Mid l n e)
      (limited : (l n : ℕ) (d : Client W)
        → Mid l n d
        → Inv l (n + 1) (record d { slept = d.slept ++ (retry_delay * 2 ^ n ∷ []) }))
      (waited : (l n : ℕ) (d : Client W)
        → Mid l n d
        → Inv l (n + 1) (record d { slept = d.slept ++ (retry_delay * 2 ^ (n - 1) ∷ []) }))
      (at_once : (l n : ℕ) (d : Client W) → Mid l n d → Inv l (n + 1) d)
      (returned : (l n : ℕ) (c : Client W) (a : A)
        → Mid l n (func c).1
        → (func c).0 ≡ ok a
        → Post (ok a, (func c).1))
      (stopped : (l n : ℕ) (c : Client W) (e : Exception)
        → Mid l n (func c).1
        → (func c).0 ≡ raise e
        → IsDefinitive e
        → Post (raise e, (func c).1))
      (refused : (l n : ℕ) (d f : Client W) (e : Exception)
        → Mid l n d
        → reauth func authenticate monotonic d ≡ (raise e, f)
        → Post (raise e, f))
      (exhausted : (n : ℕ) (c : Client W) → Inv 0 n c → Post (raise api, c)) where
    pub loop_rule :
        (l n : ℕ) (c : Client W) → Inv l n c → Post (retry_loop func authenticate monotonic l n c)
    unfolding retry_loop
    loop_rule zero n c inv = exhausted n c inv
    loop_rule (suc l) n c inv =
        handle_rule Post (func c).0 (func c).1 n rest (λ a e. returned l n c a mid e)
          (λ e is h. stopped l n c e mid is h) (λ e d eq. refused l n (func c).1 d e mid eq)
          (loop_rule l (n + 1) _ (limited l n _ mid))
          (λ d from.
            backoff_rule Post n d rest (loop_rule l (n + 1) _ (waited l n d (came d from)))
              (loop_rule l (n + 1) d (at_once l n d (came d from))))
      where
        rest : Client W → Result A × Client W
        rest q = retry_loop func authenticate monotonic l (n + 1) q

        mid : Mid l n (func c).1
        mid = called l n c inv

        came :
            (d : Client W)
            → (d ≡ (func c).1) ⊎ (reauth func authenticate monotonic (func c).1 ≡ (ok tt, d))
            → Mid l n d
        came d (inl e) = subst⁻¹ (Mid l n) e mid
        came d (inr e) = reauthed l n (func c).1 d mid e
