-- ===== src/Cloud/Token/Laws.antt =====
-- What `authenticate` raises and stores, and that a token that was just obtained is not renewed.
use delonghi_ha.Prelude.{
  ℕ, ◌+◌, ◌<◌, ◌≤◌, Bool, true, false, not, ◌||◌, ◌==◌, String, Option, none, some, ◌≡◌, refl, ◌⊎◌,
  inl, inr, arith, if_rule, Bool-cases,
}
use delonghi_ha.Prelude.Int.{ℤ, pos, negsuc}
use delonghi_ha.Prelude.Raise.{Result, ok, raise, auth, api}
use delonghi_ha.Cloud.Token.{
  Answer, response, request_exception, GigyaBody, JwtBody, TokenBody, Tokens, clamp_token_ttl,
  stored, with_access, signed_in, ayla_step, jwt_step, session_step, id_step, login_error,
  login_step, authenticate, fresh, renewed, refreshed, or_authenticate, use_refresh, ensure_token,
}

clamp_token_ttl-least : (e : Option ℤ) → 600 ≤ clamp_token_ttl e
unfolding clamp_token_ttl
clamp_token_ttl-least none = omega arith
clamp_token_ttl-least (some (pos ttl)) = omega arith
clamp_token_ttl-least (some (negsuc n)) = omega arith

-- A run that ends in one of the two classes changes nothing; one that returns has stored a token
-- that is good for ten minutes.
abbrev pub Settles : ℕ → Tokens → Result Bool × Tokens → Type 0
Settles now t (raise e, after) = ((e ≡ auth) ⊎ (e ≡ api)) × (after ≡ t)
Settles now t (ok b, after) =
    (b ≡ true) × (now + 600 ≤ after.token_expires) × ((a : String) × (after.ayla_token ≡ some a))

module _ (login : Answer GigyaBody) (get_jwt : String → String → Answer JwtBody)
    (sign_in : String → Answer TokenBody) (now : ℕ) where
  stored-lasts :
      (access : String) (refresh : Option String) (body : TokenBody) (t : Tokens)
      → Settles now t (ok true, stored login get_jwt sign_in now access refresh body)
  unfolding stored
  stored-lasts access refresh body t =
      (refl, omega (arith, clamp_token_ttl-least body.expires_in), (access, refl))

  with_access-Settles :
      (access : Option String) (body : TokenBody) (t : Tokens)
      → Settles now t (with_access login get_jwt sign_in now access body t)
  unfolding with_access
  with_access-Settles none body t = (inl refl, refl)
  with_access-Settles (some access) body t = stored-lasts access body.refresh_token body t

  signed_in-Settles :
      (body : Option TokenBody) (t : Tokens)
      → Settles now t (signed_in login get_jwt sign_in now body t)
  unfolding signed_in
  signed_in-Settles none t = (inr refl, refl)
  signed_in-Settles (some body) t = with_access-Settles body.access_token body t

  ayla_step-Settles :
      (answer : Answer TokenBody) (t : Tokens)
      → Settles now t (ayla_step login get_jwt sign_in now answer t)
  unfolding ayla_step
  ayla_step-Settles request_exception t = (inr refl, refl)
  ayla_step-Settles (response status body) t =
      if_rule (Settles now t) (status == 200) (λ h. signed_in-Settles body t)
        (λ h. (inl refl, refl))

  jwt_step-Settles :
      (id_token : String) (answer : Answer JwtBody) (t : Tokens)
      → Settles now t (jwt_step login get_jwt sign_in now id_token answer t)
  unfolding jwt_step
  jwt_step-Settles id_token request_exception t = (inr refl, refl)
  jwt_step-Settles id_token (response status none) t = (inr refl, refl)
  jwt_step-Settles id_token (response status (some body)) t = ayla_step-Settles _ t

  session_step-Settles :
      (id_token : String) (token secret : Option String) (t : Tokens)
      → Settles now t (session_step login get_jwt sign_in now id_token token secret t)
  unfolding session_step
  session_step-Settles id_token none secret t = ayla_step-Settles _ t
  session_step-Settles id_token (some token) none t = ayla_step-Settles _ t
  session_step-Settles id_token (some token) (some secret) t = jwt_step-Settles id_token _ t

  id_step-Settles :
      (id_token token secret : Option String) (t : Tokens)
      → Settles now t (id_step login get_jwt sign_in now id_token token secret t)
  unfolding id_step
  id_step-Settles (some id_token) token secret t = session_step-Settles id_token token secret t
  id_step-Settles none (some token) secret t = session_step-Settles token (some token) secret t
  id_step-Settles none none secret t = (inl refl, refl)

  login_step-Settles :
      (answer : Answer GigyaBody) (t : Tokens)
      → Settles now t (login_step login get_jwt sign_in now answer t)
  unfolding login_step
  login_step-Settles request_exception t = (inr refl, refl)
  login_step-Settles (response status none) t = (inr refl, refl)
  login_step-Settles (response status (some body)) t =
      if_rule (Settles now t) (not (status == 200) || login_error login get_jwt sign_in now body)
        (λ h. (inl refl, refl)) (λ h. id_step-Settles _ _ _ t)

  -- Whatever the servers answer in the form of `Answer`, `authenticate` returns true, with a token stored that lasts ten
  -- minutes or more, or it raises the authentication error or the API error and leaves the stored
  -- tokens as they were.
  pub authenticate-Settles : (t : Tokens) → Settles now t (authenticate login get_jwt sign_in now t)
  unfolding authenticate
  authenticate-Settles t = login_step-Settles login t

  renewed-Settles :
      (access : Option String) (body : TokenBody) (t : Tokens)
      → Settles now t (
          or_authenticate login get_jwt sign_in now
            (renewed login get_jwt sign_in now access body t)
            t)
  unfolding renewed or_authenticate
  renewed-Settles none body t = authenticate-Settles t
  renewed-Settles (some access) body t = stored-lasts access _ body t

  refreshed-Settles :
      (answer : Answer TokenBody) (t : Tokens)
      → Settles now t (
          or_authenticate login get_jwt sign_in now
            (refreshed login get_jwt sign_in now answer t)
            t)
  unfolding refreshed or_authenticate
  refreshed-Settles request_exception t = authenticate-Settles t
  refreshed-Settles (response status none) t = authenticate-Settles t
  refreshed-Settles (response status (some body)) t =
      if_rule (λ o. Settles now t (or_authenticate login get_jwt sign_in now o t)) (status == 200)
        (λ h. renewed-Settles body.access_token body t) (λ h. authenticate-Settles t)

  use_refresh-Settles :
      (refresh : String → Answer TokenBody) (token : Option String) (t : Tokens)
      → Settles now t (use_refresh login get_jwt sign_in now refresh token t)
  unfolding use_refresh
  use_refresh-Settles refresh none t = authenticate-Settles t
  use_refresh-Settles refresh (some token) t = refreshed-Settles (refresh token) t

  -- A token that a run returned is not renewed in the next five minutes.
  settled-fresh :
      (t : Tokens) (o : Result Bool × Tokens)
      → Settles now t o
      → (b : Bool) → o.0 ≡ ok b
      → (later : ℕ) → later < now + 300
      → fresh later o.1 ≡ true
  unfolding fresh
  settled-fresh t (ok done, after) h b is later soon = ground arith
  settled-fresh t (raise e, after) h b is later soon = cc

  -- A token with more than five minutes left is used as it is, without a request. Any other is
  -- renewed, by a refresh or by signing in: this returns with a token that lasts ten minutes or more,
  -- so that no call in the next five minutes makes a request, or it raises one of the two classes and
  -- the stored tokens stay. No integer, such as a negative expiry, makes each call renew the token.
  pub ensure_token_lem :
      (refresh : String → Answer TokenBody) (time : ℕ) (t : Tokens)
      → let run = ensure_token login get_jwt sign_in now refresh in
        ((fresh time t ≡ true) × (run time t ≡ (ok true, t)))
        ⊎ ((fresh time t ≡ false)
            × Settles now t (run time t)
            × ((later : ℕ)
                → (run time t).0 ≡ ok true
                → later < now + 300
                → run later (run time t).1 ≡ (ok true, (run time t).1)))
  unfolding ensure_token
  ensure_token_lem refresh time t = elim (Bool-cases (fresh time t)) [
    | inl h ↦ inl (h, rw h refl)
    | inr h ↦ inr (
      h,
      rw h (use_refresh-Settles refresh _ t),
      rw h (λ later is soon.
          rw (settled-fresh t _ (use_refresh-Settles refresh _ t) true is later soon) refl),
    )
  ]
