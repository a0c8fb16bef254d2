-- ===== src/Daedalus/Protocol.antt =====
-- The frames on the local network and the answers of the identity service
-- (custom_components/delonghi_daedalus/lan_protocol.py and gigya_auth.py).
pub mod Laws
use delonghi_ha.Prelude.{
  ℕ, zero, suc, List, [], ◌∷◌, Bool, true, false, not, ◌||◌, String, str_eq, Option, none, some,
  if◌then◌else◌,
}
use delonghi_ha.Prelude.Int.{ℤ, pos, negsuc}
use delonghi_ha.Prelude.Dict.{Dict, lookup, insert}

-- A JSON value: `other b` is null, a fraction, a list or an object, and b is whether it counts as true.
pub data Value : Type 0 where
  text : String → Value
  number : ℤ → Value
  flag : Bool → Value
  other : Bool → Value

unfoldable pub is_true : Value → Bool
is_true (text s) = not (str_eq s "")
is_true (number (pos zero)) = false
is_true (number (pos (suc n))) = true
is_true (number (negsuc n)) = true
is_true (flag b) = b
is_true (other b) = b

-- `validate_lan_host`: what `ipaddress.ip_address` says of a text that is an address.
pub record IpAddress : Type 0 where
  pub is_private : Bool
  pub is_loopback : Bool
  pub is_link_local : Bool

unfoldable pub validate_lan_host : Option IpAddress → Bool
validate_lan_host none = false
validate_lan_host (some ip) = ip.is_private || (ip.is_loopback || ip.is_link_local)

-- What `json.loads` gives: an exception, a value that is not an object, or an object.
pub data Decoded : Type 0 where
  invalid not_object : Decoded
  object : Dict Value → Decoded

-- `LanAuthRejectedError`, another `LanProtocolError`, or the connection's number.
pub data AuthReply : Type 0 where
  rejected malformed : AuthReply
  authenticated : ℤ → AuthReply

-- `payload.get("Response") == "OK"`
unfoldable pub says_ok : Option Value → Bool
says_ok none = false
says_ok (some (text s)) = str_eq s "OK"
says_ok (some (number n)) = false
says_ok (some (flag b)) = false
says_ok (some (other b)) = false

-- `isinstance(connection_id, int)`, which holds of a Boolean too.
unfoldable pub connection_number : Option Value → AuthReply
connection_number none = malformed
connection_number (some (text s)) = malformed
connection_number (some (number n)) = authenticated n
connection_number (some (flag true)) = authenticated (pos 1)
connection_number (some (flag false)) = authenticated (pos 0)
connection_number (some (other b)) = malformed

unfoldable pub parse_auth_response : Dict Value → AuthReply
parse_auth_response payload =
    if says_ok (lookup "Response" payload)
    then connection_number (lookup "ConnectionId" payload)
    else rejected

-- `parse_message` and then `parse_auth_response`.
unfoldable pub read_auth : Decoded → AuthReply
read_auth invalid = malformed
read_auth not_object = malformed
read_auth (object payload) = parse_auth_response payload

-- `_RESERVED_FRAME_KEYS`
unfoldable pub is_reserved : String → Bool
is_reserved key = str_eq key "Message" || (str_eq key "ConnectionId" || str_eq key "RequestId")

unfoldable pub overlaps : Dict Value → Bool
overlaps [] = false
overlaps ((key, value) ∷ params) = is_reserved key || overlaps params

-- `body.update(params)`
unfoldable pub update_frame : Dict Value → Dict Value → Dict Value
update_frame [] body = body
update_frame ((key, value) ∷ params) body = update_frame params (insert key value body)

-- The frame before `json.dumps`, or LanProtocolError.
unfoldable pub build_command_frame : String → ℤ → String → Dict Value → Option (Dict Value)
build_command_frame message connection_id request_id params =
    if overlaps params
    then none
    else some (
        update_frame params (
          ("Message", text message)
          ∷ ("ConnectionId", number connection_id)
          ∷ ("RequestId", text request_id)
          ∷ []))

-- `parse_jwt_response`: the token, or GigyaAuthError.
unfoldable pub has_error : Option Value → Bool
has_error none = false
has_error (some code) = is_true code

unfoldable pub token_of : Option Value → Option String
token_of none = none
token_of (some (text s)) = if str_eq s "" then none else some s
token_of (some (number n)) = none
token_of (some (flag b)) = none
token_of (some (other b)) = none

unfoldable pub parse_jwt_response : Dict Value → Option String
parse_jwt_response payload =
    if has_error (lookup "errorCode" payload) then none else token_of (lookup "id_token" payload)
