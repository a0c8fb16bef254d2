-- ===== src/Daedalus/Connect/Laws.antt =====
-- What an attempt to connect gives away, leaves open and proves.
use delonghi_ha.Prelude.{
  true, false, ◌≡◌, ◌≢◌, refl, sym, ap, ◌∙◌, arith, if_rule, ◌⊎◌, inl, inr, Bool-cases, Option,
  none, some, eq_iff,
}
use mathlib.Core.Path.{subst}
use delonghi_ha.Prelude.Int.{ℤ, pos}
use delonghi_ha.Prelude.Dict.{Dict, lookup}
use delonghi_ha.Daedalus.Protocol.{
  Value, text, number, flag, other, says_ok, connection_number, parse_auth_response,
  validate_lan_host, Decoded, invalid, not_object, object, AuthReply, rejected, malformed,
  authenticated, read_auth,
}
use delonghi_ha.Daedalus.Connect.{
  Failure, auth_error, connection_error, escaped, Tried, done, failed, client_error, os_error,
  other_error, NetStep, fine, error, Received, message, other_frame, broken, Network, Attempted,
  auth_answer, received, handshake, open_socket, connect_lan,
}

-- `{"Response": "OK"}`, and maybe more.
abbrev pub SaysOk : Dict Value → Type 0
SaysOk payload = lookup "Response" payload ≡ some (text "OK")

-- The number under `ConnectionId`; a Boolean counts as 1 or 0.
abbrev pub Numbers : Dict Value → ℤ → Type 0
Numbers payload n =
    (lookup "ConnectionId" payload ≡ some (number n))
    ⊎ ((lookup "ConnectionId" payload ≡ some (flag true)) × (n ≡ pos 1))
    ⊎ ((lookup "ConnectionId" payload ≡ some (flag false)) × (n ≡ pos 0))

-- The reply was an object, and its Response is not OK.
abbrev pub Rejection : Received → Type 0
Rejection reply = (payload : Dict Value) × (reply ≡ message (object payload)) × ¬ SaysOk payload

-- The reply was an object whose Response is OK, with the number of a connection.
abbrev pub Acceptance : Received → ℤ → Type 0
Acceptance reply n =
    (payload : Dict Value) × (reply ≡ message (object payload)) × SaysOk payload × Numbers payload n

-- What an attempt shows, if `Allowed` holds of the host.
pub record Shows (Allowed : Type 0) (reply : Received) (a : Attempted) : Type 0 where
  pub token_kept : a.token_sent ≡ true → Allowed
  pub no_leak : (e : Failure) → a.answer ≡ failed e → e ≢ escaped → a.socket_open ≡ false
  pub proves_rejection : a.answer ≡ failed auth_error → Allowed × Rejection reply
  pub proves_acceptance : (n : ℤ) → a.answer ≡ done n → Allowed × Acceptance reply n

-- A failure is not a number, and one that proves nothing is not a rejection.
abbrev IsFailed : Tried ℤ → Type 0
IsFailed (done n) = ⊥
IsFailed (failed e) = Unit {0}

abbrev Vague : Tried ℤ → Type 0
Vague (done n) = ⊥
Vague (failed auth_error) = ⊥
Vague (failed connection_error) = Unit {0}
Vague (failed escaped) = Unit {0}

module _ (Allowed : Type 0) (reply : Received) where
  -- Without a socket.
  refused-Shows :
      (e : Failure)
      → Vague (failed e)
      → Shows Allowed reply (record { token_sent = false; socket_open = false; answer = failed e })
  refused-Shows e vague = record {
    token_kept = λ h. absurd (ground (arith, h));
    no_leak = λ f h k. refl;
    proves_rejection = λ h. absurd (subst Vague h vague);
    proves_acceptance = λ n h. absurd (subst IsFailed h tt);
  }

  -- With a socket that is closed, or left open by an exception that escapes.
  closed-Shows :
      Allowed
      → Shows Allowed reply
          (record { token_sent = true; socket_open = false; answer = failed connection_error })
  closed-Shows allowed = record {
    token_kept = λ h. allowed;
    no_leak = λ f h k. refl;
    proves_rejection = λ h. absurd (subst Vague h tt);
    proves_acceptance = λ n h. absurd (subst IsFailed h tt);
  }

  open-Shows :
      Allowed
      → Shows Allowed reply
          (record { token_sent = true; socket_open = true; answer = failed escaped })
  open-Shows allowed = record {
    token_kept = λ h. allowed;
    no_leak = λ f h k. absurd (k (cc h));
    proves_rejection = λ h. absurd (subst Vague h tt);
    proves_acceptance = λ n h. absurd (subst IsFailed h tt);
  }

-- What the reading of an object proves.
says_ok-text : (o : Option Value) → says_ok o ≡ true → o ≡ some (text "OK")
unfolding says_ok
says_ok-text none h = cc
says_ok-text (some (text s)) h = ap (λ t. some (text t)) ((eq_iff s "OK").0 h)
says_ok-text (some (number n)) h = cc
says_ok-text (some (flag b)) h = cc
says_ok-text (some (other b)) h = cc

not_ok : (o : Option Value) → says_ok o ≡ false → o ≢ some (text "OK")
unfolding says_ok
not_ok none h e = cc
not_ok (some (text s)) h e = ground (arith, (eq_iff s "OK").1 (cc e), h)
not_ok (some (number n)) h e = cc
not_ok (some (flag b)) h e = cc
not_ok (some (other b)) h e = cc

is_number :
    (o : Option Value) (n : ℤ)
    → connection_number o ≡ authenticated n
    → (o ≡ some (number n))
      ⊎ ((o ≡ some (flag true)) × (n ≡ pos 1))
      ⊎ ((o ≡ some (flag false)) × (n ≡ pos 0))
unfolding connection_number
is_number none n h = cc
is_number (some (text s)) n h = cc
is_number (some (number m)) n h = inl (ap (λ k. some (number k)) (cc h))
is_number (some (flag true)) n h = inr (inl (refl, cc))
is_number (some (flag false)) n h = inr (inr (refl, cc))
is_number (some (other b)) n h = cc

never_rejected : (o : Option Value) → connection_number o ≢ rejected
unfolding connection_number
never_rejected none h = cc
never_rejected (some (text s)) h = cc
never_rejected (some (number m)) h = cc
never_rejected (some (flag true)) h = cc
never_rejected (some (flag false)) h = cc
never_rejected (some (other b)) h = cc

read-Rejection : (d : Decoded) → read_auth d ≡ rejected → Rejection (message d)
unfolding read_auth parse_auth_response
read-Rejection invalid h = cc
read-Rejection not_object h = cc
read-Rejection (object payload) h = elim (Bool-cases (says_ok (lookup "Response" payload))) [
  | inl e ↦ absurd (never_rejected (lookup "ConnectionId" payload) (rw e at h))
  | inr e ↦ (payload, refl, not_ok _ e)
]

read-Acceptance : (d : Decoded) (n : ℤ) → read_auth d ≡ authenticated n → Acceptance (message d) n
unfolding read_auth parse_auth_response
read-Acceptance invalid n h = cc
read-Acceptance not_object n h = cc
read-Acceptance (object payload) n h = elim (Bool-cases (says_ok (lookup "Response" payload))) [
  | inl e ↦
      (payload, refl, says_ok-text _ e, is_number (lookup "ConnectionId" payload) n (rw e at h))
  | inr e ↦ absurd (never_accepted n (rw e at h))
]
  where
    never_accepted : (m : ℤ) → rejected ≢ authenticated m
    never_accepted m k = cc

auth_answer-Shows :
    (Allowed : Type 0) (d : Decoded) (r : AuthReply)
    → read_auth d ≡ r
    → Allowed
    → Shows Allowed (message d) (auth_answer r)
unfolding auth_answer
auth_answer-Shows Allowed d rejected e allowed = record {
  token_kept = λ h. allowed;
  no_leak = λ f h k. refl;
  proves_rejection = λ h. (allowed, read-Rejection d e);
  proves_acceptance = λ n h. absurd (subst IsFailed h tt);
}
auth_answer-Shows Allowed d malformed e allowed = closed-Shows Allowed (message d) allowed
auth_answer-Shows Allowed d (authenticated n) e allowed = record {
  token_kept = λ h. allowed;
  no_leak = λ f h k. absurd (subst IsFailed (sym h) tt);
  proves_rejection = λ h. absurd (subst IsFailed (sym h) tt);
  proves_acceptance = λ m h. (allowed, read-Acceptance d m (e ∙ ap authenticated (cc h)));
}

received-Shows :
    (Allowed : Type 0) (reply : Received) → Allowed → Shows Allowed reply (received reply)
unfolding received
received-Shows Allowed (message d) allowed = auth_answer-Shows Allowed d (read_auth d) refl allowed
received-Shows Allowed other_frame allowed = closed-Shows Allowed other_frame allowed
received-Shows Allowed (broken client_error) allowed = closed-Shows Allowed _ allowed
received-Shows Allowed (broken os_error) allowed = closed-Shows Allowed _ allowed
received-Shows Allowed (broken other_error) allowed = open-Shows Allowed _ allowed

handshake-Shows :
    (Allowed : Type 0) (send : NetStep) (reply : Received)
    → Allowed
    → Shows Allowed reply (handshake send reply)
unfolding handshake
handshake-Shows Allowed fine reply allowed = received-Shows Allowed reply allowed
handshake-Shows Allowed (error client_error) reply allowed = closed-Shows Allowed reply allowed
handshake-Shows Allowed (error os_error) reply allowed = closed-Shows Allowed reply allowed
handshake-Shows Allowed (error other_error) reply allowed = open-Shows Allowed reply allowed

open_socket-Shows :
    (Allowed : Type 0) (opened send : NetStep) (reply : Received)
    → Allowed
    → Shows Allowed reply (open_socket opened send reply)
unfolding open_socket
open_socket-Shows Allowed fine send reply allowed = handshake-Shows Allowed send reply allowed
open_socket-Shows Allowed (error client_error) send reply allowed =
    refused-Shows Allowed reply connection_error tt
open_socket-Shows Allowed (error os_error) send reply allowed =
    refused-Shows Allowed reply escaped tt
open_socket-Shows Allowed (error other_error) send reply allowed =
    refused-Shows Allowed reply escaped tt

-- The token is handed to a socket only for a private, loopback or link-local address; a socket that was
-- opened is closed again after every failure that a handler takes; and the error that starts a rotation
-- of the token, or a connection, comes only from a JSON object that the machine sent: one whose Response
-- is not "OK", or one whose Response is and whose ConnectionId is the number of the connection, where
-- true counts as 1 and false as 0.
pub connect_lan-Shows :
    (n : Network) → Shows (validate_lan_host n.address ≡ true) n.receive (connect_lan n)
unfolding connect_lan
connect_lan-Shows n =
    if_rule (Shows (validate_lan_host n.address ≡ true) n.receive) (validate_lan_host n.address)
      (λ e. open_socket-Shows _ n.ws_connect n.send n.receive e)
      (λ e. refused-Shows _ n.receive connection_error tt)
