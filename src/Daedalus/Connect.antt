-- ===== src/Daedalus/Connect.antt =====
-- The connection to a machine: `connect_lan`, `refresh_jwt` and what they call
-- (custom_components/delonghi_daedalus/api.py), against what the network gives.
pub mod Laws
use delonghi_ha.Prelude.{
  ℕ, List, [], ◌∷◌, Bool, true, false, not, String, Option, none, some, if◌then◌else◌,
}
use delonghi_ha.Prelude.Int.{ℤ}
use delonghi_ha.Prelude.Dict.{Dict}
use delonghi_ha.Daedalus.Protocol.{
  Value, IpAddress, validate_lan_host, Decoded, AuthReply, rejected, malformed, authenticated,
  read_auth, parse_jwt_response,
}

-- `auth_error` is DaedalusAuthError, `connection_error` DaedalusConnectionError; `escaped` is any
-- exception that no handler of the client takes.
pub data Failure : Type 0 where
  auth_error connection_error escaped : Failure

pub data Tried (A : Type 0) : Type 0 where
  done : A → Tried A
  failed : Failure → Tried A

-- aiohttp.ClientError, an OSError (a TimeoutError is one), or another exception.
pub data NetError : Type 0 where
  client_error os_error other_error : NetError

-- How a step on the network ends.
pub data NetStep : Type 0 where
  fine : NetStep
  error : NetError → NetStep

-- `ws.receive`: a frame of text or bytes, a frame of another type, or an exception.
pub data Received : Type 0 where
  message : Decoded → Received
  other_frame : Received
  broken : NetError → Received

-- What `ipaddress` says of the host, and what the three steps give.
pub record Network : Type 0 where
  pub address : Option IpAddress
  pub ws_connect : NetStep
  pub send : NetStep
  pub receive : Received

-- Whether the AUTH frame with its token was handed to the socket, whether a socket that was opened is
-- still open, and the answer: the connection's number.
pub record Attempted : Type 0 where
  pub token_sent : Bool
  pub socket_open : Bool
  pub answer : Tried ℤ

abbrev refuse : Failure → Attempted
refuse e = record { token_sent = false; socket_open = false; answer = failed e }

-- After the socket is open: every handler closes it.
abbrev close_with : Failure → Attempted
close_with e = record { token_sent = true; socket_open = false; answer = failed e }

abbrev leave_open : Attempted
leave_open = record { token_sent = true; socket_open = true; answer = failed escaped }

unfoldable pub auth_answer : AuthReply → Attempted
auth_answer rejected = close_with auth_error
auth_answer malformed = close_with connection_error
auth_answer (authenticated n) = record { token_sent = true; socket_open = true; answer = done n }

unfoldable pub received : Received → Attempted
received (message decoded) = auth_answer (read_auth decoded)
received other_frame = close_with connection_error
received (broken client_error) = close_with connection_error
received (broken os_error) = close_with connection_error
received (broken other_error) = leave_open

unfoldable pub handshake : NetStep → Received → Attempted
handshake fine reply = received reply
handshake (error client_error) reply = close_with connection_error
handshake (error os_error) reply = close_with connection_error
handshake (error other_error) reply = leave_open

unfoldable pub open_socket : NetStep → NetStep → Received → Attempted
open_socket fine send reply = handshake send reply
open_socket (error client_error) send reply = refuse connection_error
open_socket (error os_error) send reply = refuse escaped
open_socket (error other_error) send reply = refuse escaped

unfoldable pub connect_lan : Network → Attempted
connect_lan n =
    if validate_lan_host n.address
    then open_socket n.ws_connect n.send n.receive
    else refuse connection_error

-- `_post_gigya`: a body, aiohttp.ClientError, or another exception.
pub data Posted : Type 0 where
  body : Dict Value → Posted
  post_error post_escaped : Posted

unfoldable pub token_or_error : Option String → Tried String
token_or_error none = failed auth_error
token_or_error (some jwt) = done jwt

unfoldable pub refresh_jwt : Posted → Tried String
refresh_jwt (body payload) = token_or_error (parse_jwt_response payload)
refresh_jwt post_error = failed connection_error
refresh_jwt post_escaped = failed escaped
