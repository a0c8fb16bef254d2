-- ===== src/Cloud/Retry/Laws.antt =====
-- What the decorator returns and raises, and that its flag is put back.
use delonghi_ha.Prelude.{
  ℕ, Bool, true, false, ◌≡◌, refl, sym, ◌∙◌, ap, ◌⊎◌, inl, inr, arith, if_rule,
}
use mathlib.Core.Path.{subst}
use delonghi_ha.Prelude.Raise.{Exception, auth, api, Result, ok, raise}
use delonghi_ha.Cloud.Retry.{Client, authenticated, reauth, retry, recently_reauthed}
use delonghi_ha.Cloud.Retry.Rule.{IsDefinitive, loop_rule}

module _ {W A : Type 0} (func : Client W → Result A × Client W)
    (authenticate : Client W → Result Bool × Client W) (monotonic : Client W → ℕ) where
  -- The flag.
  authenticated_idle :
      (s : Result Bool × Client W)
      → (authenticated func authenticate monotonic s).1.reauthenticating ≡ false
  unfolding authenticated
  authenticated_idle (ok done, c) = refl
  authenticated_idle (raise e, c) = refl

  reauth_idle :
      (c : Client W)
      → c.reauthenticating ≡ false
      → (reauth func authenticate monotonic c).1.reauthenticating ≡ false
  unfolding reauth
  reauth_idle c h =
      ground (arith, authenticated_idle (authenticate (record c { reauthenticating = true })))

  abbrev IsIdle : Client W → Type 0
  IsIdle c = c.reauthenticating ≡ false

  -- If the decorated function leaves the re-authentication flag down, so does the decorated one,
  -- however it ends: an exception inside `authenticate` puts the flag back too.
  pub retry-IsIdle :
      ((c : Client W) → c.reauthenticating ≡ false → (func c).1.reauthenticating ≡ false)
      → (c : Client W) → c.reauthenticating ≡ false
      → (retry func authenticate monotonic c).1.reauthenticating ≡ false
  unfolding retry
  retry-IsIdle kept c idle =
      loop_rule func authenticate monotonic (λ l n d. IsIdle d) (λ l n d. IsIdle d)
        (λ o. IsIdle o.1) (λ l n. kept)
        (λ l n d e h eq. ap (λ o. o.1.reauthenticating) (sym eq) ∙ reauth_idle d h) (λ l n d h. h)
        (λ l n d h. h) (λ l n d h. h) (λ l n d a h e. h) (λ l n d e h eq k. h)
        (λ l n d f e h eq. ap (λ o. o.1.reauthenticating) (sym eq) ∙ reauth_idle d h) (λ n d h. h) 3
        1 c idle

  authenticated_raises :
      (s : Result Bool × Client W) (e : Exception)
      → (authenticated func authenticate monotonic s).0 ≡ raise e
      → s.0 ≡ raise e
  unfolding authenticated
  authenticated_raises (ok done, c) e h = cc
  authenticated_raises (raise x, c) e h = cc

  reauth_classes :
      ((c : Client W) (e : Exception) → (authenticate c).0 ≡ raise e → (e ≡ auth) ⊎ (e ≡ api))
      → (c : Client W) (e : Exception) → (reauth func authenticate monotonic c).0 ≡ raise e
      → (e ≡ auth) ⊎ (e ≡ api)
  unfolding reauth
  reauth_classes two_classes c =
      if_rule Classes c.reauthenticating (λ h e is. inl cc)
        (λ h.
          if_rule Classes (recently_reauthed func authenticate monotonic c) (λ k e is. cc)
            (λ k e is. two_classes _ e (authenticated_raises _ e is)))
    where
      Classes : Result (Unit {0}) × Client W → Type 0
      Classes o = (e : Exception) → o.0 ≡ raise e → (e ≡ auth) ⊎ (e ≡ api)

  -- An exception that leaves the decorated function is one of those that the decorator passes on (an
  -- authentication error, an unsupported command, a 404, an exception of another class), and then
  -- a call of the function raised it, or it is the authentication error or the API error: no transport
  -- failure and no other status leaves it. And a value is returned only if a call of the function
  -- returned it. This holds if `authenticate` raises only its two classes.
  pub retry_outcome :
      ((c : Client W) (e : Exception) → (authenticate c).0 ≡ raise e → (e ≡ auth) ⊎ (e ≡ api))
      → (c : Client W)
      → ((e : Exception)
          → (retry func authenticate monotonic c).0 ≡ raise e
          → (IsDefinitive e × ((d : Client W) × ((func d).0 ≡ raise e))) ⊎ (e ≡ auth) ⊎ (e ≡ api))
        × ((a : A)
            → (retry func authenticate monotonic c).0 ≡ ok a
            → (d : Client W) × (func d ≡ retry func authenticate monotonic c))
  unfolding retry
  retry_outcome two_classes c = (
    loop_rule func authenticate monotonic (λ l n d. Unit {0}) (λ l n d. Unit {0}) Ends
        (λ l n d h. tt) (λ l n d e h eq. tt) (λ l n d h. tt) (λ l n d h. tt) (λ l n d h. tt)
        (λ l n d a h eq e is. cc)
        (λ l n d e h eq k f is. inl (subst IsDefinitive (raised is) k, (d, eq ∙ is)))
        (λ l n d f e h eq x is.
          inr (reauth_classes two_classes d x (ap (λ o. o.0) eq ∙ is_unit e x (raised is))))
        (λ n d h e is. inr (inr (sym (raised is)))) 3 1 c tt,
    loop_rule func authenticate monotonic (λ l n d. Unit {0}) (λ l n d. Unit {0}) Returns
        (λ l n d h. tt) (λ l n d e h eq. tt) (λ l n d h. tt) (λ l n d h. tt) (λ l n d h. tt)
        (λ l n d a h eq b is. (d, ap (λ r. (r, (func d).1)) eq)) (λ l n d e h eq k b is. cc)
        (λ l n d f e h eq b is. cc) (λ n d h b is. cc) 3 1 c tt,
  )
    where
      Ends : Result A × Client W → Type 0
      Ends o =
          (e : Exception)
          → o.0 ≡ raise e
          → (IsDefinitive e × ((d : Client W) × ((func d).0 ≡ raise e))) ⊎ (e ≡ auth) ⊎ (e ≡ api)

      Returns : Result A × Client W → Type 0
      Returns o = (a : A) → o.0 ≡ ok a → (d : Client W) × (func d ≡ o)

      raised : {e f : Exception} → ◌≡◌ {A = Result A} (raise e) (raise f) → e ≡ f
      raised h = cc

      is_unit : (e x : Exception) → e ≡ x → ◌≡◌ {A = Result (Unit {0})} (raise e) (raise x)
      is_unit e x h = cc h
