-- ===== src/Cloud/Examples.antt =====
-- Runs of the cloud client on concrete servers.
use delonghi_ha.Prelude.{
  ℕ, suc, List, [], ◌∷◌, Bool, true, false, String, none, some, ◌≡◌, refl, ◌⊎◌, inl, ◌≤◌, ◌<◌, ◌+◌,
  map, length,
}
use delonghi_ha.Prelude.Int.{negsuc}
use delonghi_ha.Prelude.Raise.{Exception, Result, ok, raise, auth, api, http}
use delonghi_ha.Cloud.Send.{
  CmdProperty, data_request, app_data_request, Reply, status, Request, timestamp, build_packet,
  attempts_for, send_command, request_of, routing,
}
use delonghi_ha.Cloud.Send.Laws.{send_command_outcome, send_command-posts}
use delonghi_ha.Cloud.Ping.{ping_connected}
use delonghi_ha.Cloud.Ping.Laws.{ping_connected_lem, Ends}
use delonghi_ha.Cloud.Retry.{Client, retry}
use delonghi_ha.Cloud.Retry.Laws.{retry-IsIdle, retry_outcome}
use delonghi_ha.Cloud.Retry.Rule.{IsDefinitive}
use delonghi_ha.Cloud.Retry.Delays.{retry-slept, retry_exhausts, sum}
use delonghi_ha.Cloud.Token.{
  Answer, response, GigyaBody, JwtBody, TokenBody, Tokens, authenticate, ensure_token, fresh,
}
use delonghi_ha.Cloud.Token.Laws.{Settles, authenticate-Settles, ensure_token_lem}
use delonghi_ha.Cloud.Client.{Session, Outside, send_call, decorated_send}
use delonghi_ha.Cloud.Client.Laws.{Answers, decorated_send_lem}

-- A server without app_data_request.
abbrev legacy_reply : CmdProperty → Reply
legacy_reply data_request = status 201
legacy_reply app_data_request = status 404

abbrev legacy : Request → Reply
legacy r = legacy_reply r.to

abbrev ecam : List ℕ
ecam = 0x0D ∷ 0x07 ∷ 0x84 ∷ 0x0F ∷ 0x03 ∷ 0x02 ∷ 0x56 ∷ 0x40 ∷ []

abbrev now : ℕ
now = 1700000000

packet_example :
    build_packet (0x0D ∷ []) now true
    ≡ 0x0D ∷ 0x65 ∷ 0x53 ∷ 0xF1 ∷ 0x00 ∷ 0x20 ∷ 0x40 ∷ 0x35 ∷ 0xEF ∷ []
unfolding build_packet timestamp
packet_example = refl

routing_example : routing "DL-striker-cb" ≡ some app_data_request
unfolding routing
routing_example = refl

routing_millcore : routing "DL-millcore" ≡ some data_request
unfolding routing
routing_millcore = refl

send_command_outcome_example : (send_command legacy ecam now none).0 ≡ ok true
unfolding attempts_for
send_command_outcome_example = send_command_outcome legacy ecam now none

send_command-posts_test :
    ((send_command legacy ecam now none).1.cmd_property ≡ some data_request)
    × ((send_command legacy ecam now none).1.requests
        ≡ map (request_of legacy ecam now) (attempts_for none))
send_command-posts_test = send_command-posts legacy ecam now none

-- A server that knows no ping.
abbrev no_ping : List ℕ → Reply
no_ping packet = status 404

ping_connected_lem_example : Ends (status 404) (status 404) none (ping_connected no_ping now none)
ping_connected_lem_example = ping_connected_lem no_ping now none (λ h. cc h)

abbrev idle : Client ℕ
idle = record { reauthenticating = false; last_401_reauth = none; slept = []; world = 0 }

-- A function whose token is always refused, and one that is always told to slow down.
abbrev refused : Client ℕ → Result Bool × Client ℕ
refused c = (raise (http 401), record c { world = suc c.world })

abbrev limited : Client ℕ → Result Bool × Client ℕ
limited c = (raise (http 429), c)

-- Signing in fails.
abbrev wrong_password : Client ℕ → Result Bool × Client ℕ
wrong_password c = (raise auth, c)

abbrev clock : Client ℕ → ℕ
clock c = c.world

retry-IsIdle_test : (retry refused wrong_password clock idle).1.reauthenticating ≡ false
retry-IsIdle_test = retry-IsIdle refused wrong_password clock (λ c h. h) idle refl

retry_outcome_example :
    ((e : Exception)
      → (retry refused wrong_password clock idle).0 ≡ raise e
      → (IsDefinitive e × ((d : Client ℕ) × ((refused d).0 ≡ raise e))) ⊎ (e ≡ auth) ⊎ (e ≡ api))
    × ((a : Bool)
        → (retry refused wrong_password clock idle).0 ≡ ok a
        → (d : Client ℕ) × (refused d ≡ retry refused wrong_password clock idle))
retry_outcome_example = retry_outcome refused wrong_password clock (λ c e h. inl cc) idle

retry-slept_example :
    (sum (retry limited wrong_password clock idle).1.slept ≤ 0 + 28)
    × (length (retry limited wrong_password clock idle).1.slept ≤ 0 + 3)
retry-slept_example = retry-slept limited wrong_password clock (λ c. refl) (λ c. refl) idle

retry_exhausts_test :
    ((retry limited wrong_password clock idle).0 ≡ raise api)
    × ((retry limited wrong_password clock idle).1.slept ≡ 4 ∷ 8 ∷ 16 ∷ [])
retry_exhausts_test =
    retry_exhausts limited wrong_password clock (http 429) (4 ∷ 8 ∷ 16 ∷ []) (inl (refl, refl))
      (λ c. refl) idle

-- Servers that answer, with an expiry in the past.
abbrev login : Answer GigyaBody
login = response 200 (
    some (record {
      error_code = some 0;
      id_token = some "id";
      session_token = some "token";
      session_secret = some "secret";
    }))

abbrev get_jwt : String → String → Answer JwtBody
get_jwt token secret = response 200 (some (record { jwt = some "jwt" }))

abbrev sign_in : String → Answer TokenBody
sign_in jwt = response 200 (
    some (record {
      access_token = some "access";
      refresh_token = some "refresh";
      expires_in = some (negsuc 0);
    }))

abbrev signed_out : Tokens
signed_out = record { ayla_token = none; ayla_refresh = none; token_expires = 0 }

authenticate-Settles_test :
    Settles now signed_out (authenticate login get_jwt sign_in now signed_out)
authenticate-Settles_test = authenticate-Settles login get_jwt sign_in now signed_out

ensure_token_lem_test :
    let run = ensure_token login get_jwt sign_in now sign_in in
    ((fresh now signed_out ≡ true) × (run now signed_out ≡ (ok true, signed_out)))
    ⊎ ((fresh now signed_out ≡ false)
        × Settles now signed_out (run now signed_out)
        × ((later : ℕ)
            → (run now signed_out).0 ≡ ok true
            → later < now + 300
            → run later (run now signed_out).1 ≡ (ok true, (run now signed_out).1)))
ensure_token_lem_test = ensure_token_lem login get_jwt sign_in now sign_in now signed_out

abbrev outside : Outside
outside = record {
  login = λ k. login;
  get_jwt = λ k. get_jwt;
  sign_in = λ k. sign_in;
  refresh = λ k. sign_in;
  post = λ k. legacy;
  time = λ k. now;
  monotonic = λ k. k;
}

abbrev start : Client Session
start = record {
  reauthenticating = false;
  last_401_reauth = none;
  slept = [];
  world = record { tokens = signed_out; cmd_property = none; calls = 0 };
}

decorated_send_lem_test :
    Answers (decorated_send outside ecam start).0
    × ((decorated_send outside ecam start).1.reauthenticating ≡ false)
    × ((decorated_send outside ecam start).0 ≡ ok true
        → (d : Client Session) × (send_call outside ecam d ≡ decorated_send outside ecam start))
decorated_send_lem_test = decorated_send_lem outside ecam start refl
