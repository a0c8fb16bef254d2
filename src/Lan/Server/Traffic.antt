-- ===== src/Lan/Server/Traffic.antt =====
-- `_handle_command_poll`, `_handle_property_push` and `_handle_status`
-- (custom_components/delonghi_coffee/lan.py).
use delonghi_ha.Prelude.{
  ℕ, ◌+◌, List, [], ◌∷◌, Bool, true, false, not, String, Option, none, some, length, if◌then◌else◌,
}
use delonghi_ha.Prelude.Raise.{Result, ok, raise}
use delonghi_ha.Lan.Crypto.{Primitives, LanSession, encrypt_app_to_device, decrypt_device_to_app}
use delonghi_ha.Lan.Server.{LanServerConfig, LanServer, is_peer_allowed}

-- `json.dumps` of `{"seq_no": ..., "data": ...}`, with empty data for a heartbeat, and `json.loads` of
-- a decrypted text.
pub record Json (D : Type 0) : Type 0 where
  pub dumps : ℕ → Option D → List ℕ
  pub loads : List ℕ → Option D

-- 403, or 200 with `enc`, `sign` and `seq`; `empty` is the reply with empty texts.
pub data PollReply : Type 0 where
  forbidden : PollReply
  empty : ℕ → PollReply
  served : List ℕ → List ℕ → ℕ → PollReply

-- 403, or 200 with an empty body.
pub data PushReply : Type 0 where
  forbidden received : PushReply

-- The answer to a push, the datapoint that `_on_property` gets, if there is one, and the server.
pub record Pushed (D : Type 0) : Type 0 where
  pub reply : PushReply
  pub delivered : Option D
  pub server : LanServer D

pub data StatusReply : Type 0 where
  forbidden : StatusReply
  healthy : Bool → ℕ → ℕ → StatusReply

-- `get_nowait`: the first command, and the rest.
abbrev pub first : {D : Type 0} → List D → Option D
first [] = none
first (d ∷ rest) = some d

abbrev pub others : {D : Type 0} → List D → List D
others [] = []
others (d ∷ rest) = rest

module _ (D : Type 0) (prim : Primitives) (json : Json D) (config : LanServerConfig) where
  -- With what the encryption gives.
  unfoldable pub reply_poll :
      Result (List ℕ × List ℕ × LanSession) → ℕ → LanServer D → PollReply × LanServer D
  reply_poll (ok (enc, sign, session)) seq s =
      (served enc sign seq, record s { session = some session })
  reply_poll (raise e) seq s = (empty seq, s)

  unfoldable pub poll_session : Option LanSession → ℕ → LanServer D → PollReply × LanServer D
  poll_session none now s = (empty s.seq, s)
  poll_session (some session) now s =
      reply_poll (encrypt_app_to_device prim session (json.dumps (s.seq + 1) (first s.pending)))
        (s.seq + 1)
        (record s { last_activity = some now; pending = others s.pending; seq = s.seq + 1 })

  unfoldable pub handle_command_poll : String → ℕ → LanServer D → PollReply × LanServer D
  handle_command_poll peer now s =
      if not (is_peer_allowed config peer) then (forbidden, s) else poll_session s.session now s

  -- With what the decryption gives.
  unfoldable pub deliver : Result (List ℕ × LanSession) → ℕ → LanServer D → Pushed D
  deliver (raise e) now s = record { reply = received; delivered = none; server = s }
  deliver (ok (plaintext, session)) now s = record {
    reply = received;
    delivered = json.loads plaintext;
    server = record s { session = some session; last_activity = some now };
  }

  unfoldable pub push_session : Option LanSession → List ℕ → ℕ → LanServer D → Pushed D
  push_session none enc now s = record { reply = received; delivered = none; server = s }
  push_session (some session) enc now s = deliver (decrypt_device_to_app prim session enc) now s

  unfoldable pub push_envelope : Option (List ℕ) → ℕ → LanServer D → Pushed D
  push_envelope none now s = record { reply = received; delivered = none; server = s }
  push_envelope (some enc) now s = push_session s.session enc now s

  -- `enc` of the body, if it is a text in an object.
  unfoldable pub handle_property_push : String → Option (List ℕ) → ℕ → LanServer D → Pushed D
  handle_property_push peer enc now s =
      if not (is_peer_allowed config peer)
      then record { reply = forbidden; delivered = none; server = s }
      else push_envelope enc now s

  abbrev pub is_set : Option LanSession → Bool
  is_set none = false
  is_set (some session) = true

  unfoldable pub handle_status : String → LanServer D → StatusReply
  handle_status peer s =
      if not (is_peer_allowed config peer)
      then forbidden
      else healthy (is_set s.session) s.seq (length s.pending)
