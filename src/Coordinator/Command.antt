-- ===== src/Coordinator/Command.antt =====
-- Commands over the local network: `send_command_lan`
-- (custom_components/delonghi_coffee/coordinator.py), with the client's packets and the server's queue.
pub mod Laws
use delonghi_ha.Prelude.{
  ℕ, List, [], ◌∷◌, ◌++◌, Bool, true, false, not, String, Option, none, some, if◌then◌else◌,
}
use delonghi_ha.Cloud.Send.{CmdProperty, data_request, app_data_request, build_packet}
use delonghi_ha.Lan.Crypto.{LanSession}
use delonghi_ha.Lan.Server.{LanServer, is_session_alive, enqueue_command}

-- LAN_SESSION_STALE_SECONDS
abbrev pub lan_session_stale_seconds : ℕ
lan_session_stale_seconds = 30

-- An entry of "properties", with the packet before base64 as its value; "base_type" is "string".
pub record Property : Type 0 where
  pub dsn : String
  pub name : CmdProperty
  pub value : List ℕ

-- `{"properties": [...]}`
pub record Payload : Type 0 where
  pub properties : List Property

-- `self.api._cmd_property or "app_data_request"`
unfoldable pub property_name : Option CmdProperty → CmdProperty
property_name none = app_data_request
property_name (some p) = p

abbrev pub has_session : Option LanSession → Bool
has_session none = false
has_session (some session) = true

module _ (dsn : String) (ecam : List ℕ) where
  unfoldable pub lan_property : CmdProperty → Bool → ℕ → Property
  lan_property name include_app_id time = record {
    dsn = dsn;
    name = name;
    value = build_packet ecam time include_app_id;
  }

  -- The two numbers are `time.time()` at the first packet and at the second, if there is one.
  unfoldable pub payload_for : Option CmdProperty → ℕ → ℕ → Payload
  payload_for (some data_request) time_1 time_2 = record {
    properties =
        lan_property data_request false time_1 ∷ lan_property data_request true time_2 ∷ [];
  }
  payload_for (some app_data_request) time_1 time_2 = record {
    properties = lan_property app_data_request true time_1 ∷ [];
  }
  payload_for none time_1 time_2 = record {
    properties = lan_property (property_name none) true time_1 ∷ [];
  }

  -- The answer, and the server after it; `now` is the monotonic clock.
  unfoldable pub send_command_lan :
      Option CmdProperty
      → ℕ
      → ℕ
      → ℕ
      → Option (LanServer Payload)
      → Bool × Option (LanServer Payload)
  send_command_lan cmd time_1 time_2 now none = (false, none)
  send_command_lan cmd time_1 time_2 now (some server) =
      if not (has_session server.session)
      then (false, some server)
      else if not (is_session_alive server now lan_session_stale_seconds)
      then (false, some server)
      else (true, some (enqueue_command (payload_for cmd time_1 time_2) server))
