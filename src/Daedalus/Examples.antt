-- ===== src/Daedalus/Examples.antt =====
-- Tests and witnesses for the second integration.
use delonghi_ha.Prelude.{[], ◌∷◌, true, false, Option, none, some, ◌≡◌, refl}
use delonghi_ha.Prelude.Int.{pos}
use delonghi_ha.Prelude.Dict.{lookup}
use delonghi_ha.Daedalus.Protocol.{
  text, number, IpAddress, validate_lan_host, object, read_auth, parse_auth_response, says_ok,
  connection_number, parse_jwt_response, has_error, token_of, build_command_frame,
}
use delonghi_ha.Daedalus.Protocol.Laws.{FrameHolds, build_command_frame-FrameHolds}
use delonghi_ha.Daedalus.Connect.{
  fine, message, Network, connect_lan, open_socket, handshake, received, auth_answer, body,
  refresh_jwt, token_or_error,
}
use delonghi_ha.Daedalus.Connect.Laws.{Shows, connect_lan-Shows}
use delonghi_ha.Daedalus.Session.{
  Daedalus, Encounter, connected, reauth, is_live, second_try, after_rotation, first_try,
  update_cycle,
}

abbrev home : Option IpAddress
home = some (record { is_private = true; is_loopback = false; is_link_local = false })

-- A machine that does not take the token, and one that does.
abbrev rejecting : Network
rejecting = record {
  address = home;
  ws_connect = fine;
  send = fine;
  receive = message (object (("Response", text "ERROR") ∷ []));
}

abbrev accepting : Network
accepting = record {
  address = home;
  ws_connect = fine;
  send = fine;
  receive = message (object (("Response", text "OK") ∷ ("ConnectionId", number (pos 7)) ∷ []));
}

connect_lan-Shows_example :
    Shows (validate_lan_host home ≡ true) rejecting.receive (connect_lan rejecting)
connect_lan-Shows_example = connect_lan-Shows rejecting

-- The stored token expired, and the machine takes the fresh one.
abbrev expired : Encounter
expired = record {
  first = rejecting;
  rotation = body (("id_token", text "fresh") ∷ []);
  second = accepting;
}

abbrev entry : Daedalus
entry = record { jwt = "old"; session_token = "session"; lan = none }

rotated_test :
    ((update_cycle expired entry).ending ≡ connected)
    × ((update_cycle expired entry).state.jwt ≡ "fresh")
    × ((update_cycle expired entry).attempts ≡ 2)
unfolding update_cycle is_live first_try after_rotation second_try connect_lan validate_lan_host
    open_socket handshake received auth_answer read_auth parse_auth_response says_ok
    connection_number refresh_jwt token_or_error parse_jwt_response has_error token_of lookup
rotated_test = (refl, refl, refl)

-- The machine rejects the fresh token too.
rejected_twice : (update_cycle (record expired { second = rejecting }) entry).ending ≡ reauth
unfolding update_cycle is_live first_try after_rotation second_try connect_lan validate_lan_host
    open_socket handshake received auth_answer read_auth parse_auth_response says_ok
    connection_number refresh_jwt token_or_error parse_jwt_response has_error token_of lookup
rejected_twice = refl

build_command_frame_test :
    FrameHolds "BREW"
      (pos 7)
      "id"
      (("Message", text "STOP") ∷ [])
      (build_command_frame "BREW" (pos 7) "id" (("Message", text "STOP") ∷ []))
build_command_frame_test =
    build_command_frame-FrameHolds "BREW" (pos 7) "id" (("Message", text "STOP") ∷ [])
