-- ===== src/Cloud/Client.antt =====
-- `send_command` with all that it calls (custom_components/delonghi_coffee/api.py): the retry
-- decorator around the token check and the attempts. What the servers and the clocks give may depend
-- on how many calls were made.
pub mod Laws
use delonghi_ha.Prelude.{ℕ, suc, List, Bool, true, false, String, Option}
use delonghi_ha.Prelude.Raise.{Result, ok, raise}
use delonghi_ha.Cloud.Send.{CmdProperty, Reply, Request, Progress, send_command}
use delonghi_ha.Cloud.Token.{
  Answer, GigyaBody, JwtBody, TokenBody, Tokens, ensure_token, authenticate,
}
use delonghi_ha.Cloud.Retry.{Client, retry}

-- The rest of the client's state, and the number of calls.
pub record Session : Type 0 where
  pub tokens : Tokens
  pub cmd_property : Option CmdProperty
  pub calls : ℕ

-- What is outside the program, call by call.
pub record Outside : Type 0 where
  pub login : ℕ → Answer GigyaBody
  pub get_jwt : ℕ → String → String → Answer JwtBody
  pub sign_in : ℕ → String → Answer TokenBody
  pub refresh : ℕ → String → Answer TokenBody
  pub post : ℕ → Request → Reply
  pub time : ℕ → ℕ
  pub monotonic : ℕ → ℕ

module _ (o : Outside) where
  -- After `_headers`.
  unfoldable pub with_headers :
      List ℕ → Result Bool × Tokens → Client Session → Result Bool × Client Session
  with_headers ecam (raise e, tokens) c =
      (raise e, record c { world = record c.world { tokens = tokens; calls = suc c.world.calls } })
  with_headers ecam (ok done, tokens) c =
      let k = c.world.calls in
      let sent = send_command (o.post k) ecam (o.time k) c.world.cmd_property in
      (
        sent.0,
        record c {
          world = record { tokens = tokens; cmd_property = sent.1.cmd_property; calls = suc k };
        },
      )

  unfoldable pub send_call : List ℕ → Client Session → Result Bool × Client Session
  send_call ecam c =
      let k = c.world.calls in
      with_headers ecam
        (ensure_token (o.login k) (o.get_jwt k) (o.sign_in k) (o.time k) (o.refresh k) (o.time k)
          c.world.tokens)
        c

  unfoldable pub authenticate_call : Client Session → Result Bool × Client Session
  authenticate_call c =
      let k = c.world.calls in
      let run = authenticate (o.login k) (o.get_jwt k) (o.sign_in k) (o.time k) c.world.tokens in
      (run.0, record c { world = record c.world { tokens = run.1; calls = suc k } })

  -- The method as it is called.
  unfoldable pub decorated_send : List ℕ → Client Session → Result Bool × Client Session
  decorated_send ecam c =
      retry (send_call ecam) authenticate_call (λ d. o.monotonic d.world.calls) c
