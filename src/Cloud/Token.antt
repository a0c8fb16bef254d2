-- ===== src/Cloud/Token.antt =====
-- `_clamp_token_ttl`, `authenticate` and `_ensure_token`
-- (custom_components/delonghi_coffee/api.py). Times are whole seconds. The servers are functions from
-- what a request carries to its answer. Not modelled are a JSON body that is not an object, or whose
-- sessionInfo is none, where the code raises AttributeError, an `expires_in` of NaN, with which no token is
-- ever fresh, and one too large for a float, where it raises OverflowError after the token was stored.
pub mod Laws
use delonghi_ha.Prelude.{
  ℕ, ◌+◌, Bool, true, false, not, ◌||◌, ◌==◌, ltb, max, String, str_eq, Option, none, some,
  if◌then◌else◌,
}
use delonghi_ha.Prelude.Int.{ℤ, pos, negsuc}
use delonghi_ha.Prelude.Raise.{Result, ok, raise, auth, api}

-- A response, with the JSON of its body if it is JSON, or a `requests.RequestException`.
pub data Answer (A : Type 0) : Type 0 where
  response : ℕ → Option A → Answer A
  request_exception : Answer A

-- What is read of the bodies. An absent key is `none`; `expires_in` is `none` also if it is no number.
pub record GigyaBody : Type 0 where
  pub error_code : Option ℕ
  pub id_token : Option String
  pub session_token : Option String
  pub session_secret : Option String

pub record JwtBody : Type 0 where
  pub jwt : Option String

pub record TokenBody : Type 0 where
  pub access_token : Option String
  pub refresh_token : Option String
  pub expires_in : Option ℤ

-- `_ayla_token`, `_ayla_refresh`, `_token_expires`.
pub record Tokens : Type 0 where
  pub ayla_token : Option String
  pub ayla_refresh : Option String
  pub token_expires : ℕ

abbrev pub min_token_ttl_seconds : ℕ
min_token_ttl_seconds = 600

unfoldable pub clamp_token_ttl : Option ℤ → ℕ
clamp_token_ttl none = max 86400 min_token_ttl_seconds
clamp_token_ttl (some (pos ttl)) = max ttl min_token_ttl_seconds
clamp_token_ttl (some (negsuc n)) = min_token_ttl_seconds

-- Python's truth of an optional text.
abbrev pub truthy : Option String → Option String
truthy none = none
truthy (some text) = if str_eq text "" then none else some text

-- `data.get("refresh_token", old)`
abbrev pub get_or_else : Option String → Option String → Option String
get_or_else none old = old
get_or_else (some new) old = some new

-- The test of `_ensure_token`, at a time.
unfoldable pub fresh : ℕ → Tokens → Bool
fresh time t = ltb (time + 300) t.token_expires

module _ (login : Answer GigyaBody) (get_jwt : String → String → Answer JwtBody)
    (sign_in : String → Answer TokenBody) (now : ℕ) where
  -- The assignments after a sign-in or a refresh.
  unfoldable pub stored : String → Option String → TokenBody → Tokens
  stored access refresh body = record {
    ayla_token = some access;
    ayla_refresh = refresh;
    token_expires = now + clamp_token_ttl body.expires_in;
  }

  unfoldable pub with_access : Option String → TokenBody → Tokens → Result Bool × Tokens
  with_access none body t = (raise auth, t)
  with_access (some access) body t = (ok true, stored access body.refresh_token body)

  -- The body of the sign-in, if its status was 200.
  unfoldable pub signed_in : Option TokenBody → Tokens → Result Bool × Tokens
  signed_in none t = (raise api, t)
  signed_in (some body) t = with_access body.access_token body t

  -- Step 3.
  unfoldable pub ayla_step : Answer TokenBody → Tokens → Result Bool × Tokens
  ayla_step request_exception t = (raise api, t)
  ayla_step (response status body) t = if status == 200 then signed_in body t else (raise auth, t)

  unfoldable pub jwt_or : String → Option String → String
  jwt_or id_token none = id_token
  jwt_or id_token (some jwt) = jwt

  -- Step 2 has an answer.
  unfoldable pub jwt_step : String → Answer JwtBody → Tokens → Result Bool × Tokens
  jwt_step id_token request_exception t = (raise api, t)
  jwt_step id_token (response status none) t = (raise api, t)
  jwt_step id_token (response status (some body)) t =
      ayla_step (sign_in (jwt_or id_token body.jwt)) t

  -- Step 2, with what is not empty of `sessionToken` and `sessionSecret`.
  unfoldable pub session_step :
      String → Option String → Option String → Tokens → Result Bool × Tokens
  session_step id_token (some token) (some secret) t = jwt_step id_token (get_jwt token secret) t
  session_step id_token (some token) none t = ayla_step (sign_in id_token) t
  session_step id_token none secret t = ayla_step (sign_in id_token) t

  -- The choice of `id_token`: the body's own, else its `sessionToken`.
  unfoldable pub id_step :
      Option String → Option String → Option String → Tokens → Result Bool × Tokens
  id_step (some id_token) token secret t = session_step id_token token secret t
  id_step none (some token) secret t = session_step token (some token) secret t
  id_step none none secret t = (raise auth, t)

  abbrev pub login_error : GigyaBody → Bool
  login_error body = elim body.error_code [ none ↦ false | some code ↦ not (code == 0) ]

  -- Step 1 has an answer.
  unfoldable pub login_step : Answer GigyaBody → Tokens → Result Bool × Tokens
  login_step request_exception t = (raise api, t)
  login_step (response status none) t = (raise api, t)
  login_step (response status (some body)) t =
      if not (status == 200) || login_error body
      then (raise auth, t)
      else id_step (truthy body.id_token) (truthy body.session_token) (truthy body.session_secret) t

  unfoldable pub authenticate : Tokens → Result Bool × Tokens
  authenticate t = login_step login t

  -- The body of a refresh; `none` where `authenticate` is to follow.
  unfoldable pub renewed : Option String → TokenBody → Tokens → Option Tokens
  renewed none body t = none
  renewed (some access) body t =
      some (stored access (get_or_else body.refresh_token t.ayla_refresh) body)

  unfoldable pub refreshed : Answer TokenBody → Tokens → Option Tokens
  refreshed request_exception t = none
  refreshed (response status none) t = none
  refreshed (response status (some body)) t =
      if status == 200 then renewed body.access_token body t else none

  unfoldable pub or_authenticate : Option Tokens → Tokens → Result Bool × Tokens
  or_authenticate none t = authenticate t
  or_authenticate (some after) t = (ok true, after)

  unfoldable pub use_refresh :
      (String → Answer TokenBody) → Option String → Tokens → Result Bool × Tokens
  use_refresh refresh none t = authenticate t
  use_refresh refresh (some token) t = or_authenticate (refreshed (refresh token) t) t

  -- One thread's `_ensure_token`: the time is read at its start, and again for the new expiry.
  unfoldable pub ensure_token : (String → Answer TokenBody) → ℕ → Tokens → Result Bool × Tokens
  ensure_token refresh time t =
      if fresh time t then (ok true, t) else use_refresh refresh (truthy t.ayla_refresh) t
