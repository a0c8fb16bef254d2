-- ===== src/Cloud/Client/Laws.antt =====
-- How a decorated command may end.
use delonghi_ha.Prelude.{
  ℕ, List, Bool, true, false, Option, ◌≡◌, refl, ◌∙◌, ap, ◌⊎◌, inl, inr, if_rule,
}
use mathlib.Core.Path.{subst, subst⁻¹}
use delonghi_ha.Prelude.Raise.{Exception, Result, ok, raise, auth, api, unsupported}
use delonghi_ha.Cloud.Send.{CmdProperty, Reply, Request, send_command, attempts_for}
use delonghi_ha.Cloud.Send.Laws.{send_command_outcome, any, all, accepted, missing, answers}
use delonghi_ha.Cloud.Token.{Tokens, ensure_token}
use delonghi_ha.Cloud.Token.Laws.{Settles, authenticate-Settles, ensure_token_lem}
use delonghi_ha.Cloud.Retry.{Client}
use delonghi_ha.Cloud.Retry.Laws.{retry-IsIdle, retry_outcome}
use delonghi_ha.Cloud.Retry.Rule.{IsDefinitive}
use delonghi_ha.Cloud.Client.{
  Session, Outside, with_headers, send_call, authenticate_call, decorated_send,
}

-- True, or one of three exceptions.
abbrev pub Answers : Result Bool → Type 0
Answers (ok b) = b ≡ true
Answers (raise e) = (e ≡ auth) ⊎ (e ≡ api) ⊎ (e ≡ unsupported)

Settles-Answers : (now : ℕ) (t : Tokens) (o : Result Bool × Tokens) → Settles now t o → Answers o.0
Settles-Answers now t (ok b, after) h = h.0
Settles-Answers now t (raise e, after) (inl h, k) = inl h
Settles-Answers now t (raise e, after) (inr h, k) = inr (inl h)

Settles-classes :
    (now : ℕ) (t : Tokens) (o : Result Bool × Tokens) (e : Exception)
    → Settles now t o
    → o.0 ≡ raise e
    → (e ≡ auth) ⊎ (e ≡ api)
Settles-classes now t (ok b, after) e h is = cc
Settles-classes now t (raise x, after) e (inl h, k) is = inl cc
Settles-classes now t (raise x, after) e (inr h, k) is = inr cc

ends :
    (func : Client Session → Result Bool × Client Session) (end : Result Bool × Client Session)
    → ((d : Client Session) → Answers (func d).0)
    → ((e : Exception)
        → end.0 ≡ raise e
        → (IsDefinitive e × ((d : Client Session) × ((func d).0 ≡ raise e)))
          ⊎ (e ≡ auth)
          ⊎ (e ≡ api))
      × ((b : Bool) → end.0 ≡ ok b → (d : Client Session) × (func d ≡ end))
    → Answers end.0
ends func (ok b, after) each h =
    let (d, is) = h.1 b refl in subst Answers (ap (λ o. o.0) is) (each d)
ends func (raise e, after) each h = elim (h.0 e refl) [
  | inl x ↦ subst Answers (x.1.1) (each x.1.0)
  | inr x ↦ elim x [ inl is ↦ inl is | inr is ↦ inr (inl is) ]
]

module _ (o : Outside) where
  send-Answers :
      (post : Request → Reply) (ecam : List ℕ) (now : ℕ) (cached : Option CmdProperty)
      → Answers (send_command post ecam now cached).0
  send-Answers post ecam now cached = rw (send_command_outcome post ecam now cached) (
      if_rule Answers (any accepted (answers post ecam now (attempts_for cached))) (λ h. refl)
        (λ h.
          if_rule Answers (all missing (answers post ecam now (attempts_for cached)))
            (λ k. inr (inr refl)) (λ k. inr (inl refl))))

  with_headers-Answers :
      (ecam : List ℕ) (r : Result Bool × Tokens) (c : Client Session)
      → Answers r.0
      → Answers (with_headers o ecam r c).0
  unfolding with_headers
  with_headers-Answers ecam (raise e, tokens) c h = h
  with_headers-Answers ecam (ok done, tokens) c h = send-Answers _ ecam _ c.world.cmd_property

  token-Answers :
      (k time : ℕ) (t : Tokens)
      → Answers
          (ensure_token (o.login k) (o.get_jwt k) (o.sign_in k) (o.time k) (o.refresh k) time t).0
  token-Answers k time t =
      elim (ensure_token_lem (o.login k) (o.get_jwt k) (o.sign_in k) (o.time k) (o.refresh k) time
        t) [ inl h ↦ subst⁻¹ (λ run. Answers run.0) h.1 refl | inr h ↦ Settles-Answers _ _ _ h.1 ]

  send_call-Answers : (ecam : List ℕ) (c : Client Session) → Answers (send_call o ecam c).0
  unfolding send_call
  send_call-Answers ecam c = with_headers-Answers ecam _ c (token-Answers _ _ c.world.tokens)

  with_headers-idle :
      (ecam : List ℕ) (r : Result Bool × Tokens) (c : Client Session)
      → (with_headers o ecam r c).1.reauthenticating ≡ c.reauthenticating
  unfolding with_headers
  with_headers-idle ecam (raise e, tokens) c = refl
  with_headers-idle ecam (ok done, tokens) c = refl

  send_call-idle :
      (ecam : List ℕ) (c : Client Session)
      → (send_call o ecam c).1.reauthenticating ≡ c.reauthenticating
  unfolding send_call
  send_call-idle ecam c = with_headers-idle ecam _ c

  authenticate_call_classes :
      (c : Client Session) (e : Exception)
      → (authenticate_call o c).0 ≡ raise e
      → (e ≡ auth) ⊎ (e ≡ api)
  unfolding authenticate_call
  authenticate_call_classes c e is = Settles-classes _ _ _ e (authenticate-Settles _ _ _ _ _) is

  -- Whatever the servers, in the form of their answers in `Cloud.Token`, and the clocks give, a decorated command whose client is not already
  -- re-authenticating returns true or raises the authentication error, the API error or the error for
  -- an unsupported command, and leaves the client not re-authenticating. It returns true only if
  -- one of its calls of the method did.
  pub decorated_send_lem :
      (ecam : List ℕ) (c : Client Session)
      → c.reauthenticating ≡ false
      → let end = decorated_send o ecam c in
        Answers end.0
        × (end.1.reauthenticating ≡ false)
        × (end.0 ≡ ok true → (d : Client Session) × (send_call o ecam d ≡ end))
  unfolding decorated_send
  decorated_send_lem ecam c idle = (
    ends (send_call o ecam) _ (send_call-Answers ecam)
        (retry_outcome (send_call o ecam) (authenticate_call o) _ authenticate_call_classes c),
    retry-IsIdle (send_call o ecam) (authenticate_call o) _ (λ d h. send_call-idle ecam d ∙ h) c
        idle,
    (retry_outcome (send_call o ecam) (authenticate_call o) _ authenticate_call_classes c).1 true,
  )
