-- ===== src/Lan/Examples.antt =====
-- Runs of the local server on toy primitives: AES and base64 change nothing, and a digest is the key and
-- the text, cut to 32 bytes.
use delonghi_ha.Prelude.{
  ℕ, ◌≤◌, ◌<◌, ◌%◌, List, [], ◌∷◌, ◌++◌, true, false, String, Option, none, some, ◌≡◌, refl, arith,
  length, take, replicate, length-take, length-append, length-replicate,
}
use delonghi_ha.Prelude.Int.{pos}
use delonghi_ha.Prelude.Raise.{ok}
use delonghi_ha.Prelude.Dict.{lookup, insert}
use delonghi_ha.Lan.Crypto.{
  Primitives, rstrip, pad_zero, unpad_zero, last_block, LanSession, keys, derive_session,
}
use delonghi_ha.Lan.Crypto.Laws.{
  IsSound, EndsNonzero, IsSession, unpad_zero-pad_zero, derive_session-IsSession,
}
use delonghi_ha.Lan.Server.{
  LanServerConfig, LanServer, trusted, is_peer_allowed, is_member, zone_free,
}
use delonghi_ha.Lan.Server.Handshake.{
  accepted, HandshakeRequest, KeyExchange, handle_handshake, read_body, exchange, install,
  is_skewed,
}
use delonghi_ha.Lan.Server.Handshake.Laws.{Handled, handle_handshake_lem}
use delonghi_ha.Lan.Server.Traffic.{Json, handle_property_push, received, forbidden}
use delonghi_ha.Lan.Server.Trace.{handshake, here, next}
use delonghi_ha.Lan.Server.Trace.Laws.{AtLeast, Reach-AtLeast}
use delonghi_ha.Lan.Device.{read_commands, polls, send_datapoints, pushes}
use delonghi_ha.Lan.Device.Laws.{polls-handshake}
use delonghi_ha.Lan.Device.Push.{pushes-send_datapoints, handle_property_push_lem}

abbrev toy_digest : List ℕ → List ℕ → List ℕ
toy_digest key text = take 32 (key ++ (text ++ replicate 32 0))

abbrev toy : Primitives
toy = record {
  hmac_sha256 = toy_digest;
  cbc_encrypt = λ key iv raw. ok raw;
  cbc_decrypt = λ key iv raw. ok raw;
  b64encode = λ xs. xs;
  b64decode = λ xs. ok xs;
}

toy-IsSound : IsSound toy
toy-IsSound = record {
  digest = λ key text. omega (
    arith,
    length-take 32 (key ++ (text ++ replicate 32 0)),
    length-append {0} key (text ++ replicate 32 0),
    length-append {0} text (replicate 32 0),
    length-replicate {A = ℕ} 32 0,
  );
  cbc = λ key iv raw k i whole. (raw, refl, refl, refl);
  base64 = λ xs. refl;
}

abbrev toy_dumps : ℕ → Option ℕ → List ℕ
toy_dumps seq none = seq ∷ 0x7D ∷ []
toy_dumps seq (some d) = seq ∷ d ∷ 0x7D ∷ []

toy_dumps-EndsNonzero : (seq : ℕ) (d : Option ℕ) → EndsNonzero (toy_dumps seq d)
toy_dumps-EndsNonzero seq none = λ h. absurd (omega arith)
toy_dumps-EndsNonzero seq (some d) = λ h. absurd (omega arith)

abbrev toy_loads : List ℕ → Option ℕ
toy_loads [] = none
toy_loads (x ∷ xs) = some x

abbrev toy_json : Json ℕ
toy_json = record { dumps = toy_dumps; loads = toy_loads }

abbrev device_ip : String
device_ip = "192.168.1.5"

abbrev config : LanServerConfig
config = record {
  lan_key = 0x6B ∷ [];
  trusted_peers = "127.0.0.1" ∷ "::1" ∷ "192.168.1.5" ∷ [];
  handshake_max_skew = 1800;
}

trusted_example : trusted (device_ip ∷ []) ≡ config.trusted_peers
unfolding trusted
trusted_example = refl

device_allowed : is_peer_allowed config "192.168.1.5%eth0" ≡ true
unfolding is_peer_allowed is_member zone_free
device_allowed = refl

abbrev waiting : LanServer ℕ
waiting = record {
  session = none;
  last_activity = none;
  seq = 9;
  pending = 7 ∷ 8 ∷ [];
  last_handshake_time1 = ("192.168.1.5", pos 1699999000) ∷ [];
}

abbrev exchange_body : KeyExchange
exchange_body = record { random_1 = 0x61 ∷ 0x3D ∷ []; time_1 = pos 1700000000 }

abbrev request : HandshakeRequest
request = record {
  peer = "192.168.1.5";
  body = some exchange_body;
  now = 1700000010;
  monotonic = 50;
  fresh_random = 0x62 ∷ [];
}

padding_test :
    (length (pad_zero (1 ∷ 2 ∷ [])) % 16 ≡ 0)
    × (2 < length (pad_zero (1 ∷ 2 ∷ [])))
    × (length (pad_zero (1 ∷ 2 ∷ [])) ≤ 18)
    × (EndsNonzero (1 ∷ 2 ∷ []) → unpad_zero (pad_zero (1 ∷ 2 ∷ [])) ≡ 1 ∷ 2 ∷ [])
    × ((ys : List ℕ) (n : ℕ)
        → EndsNonzero ys
        → 1 ∷ 2 ∷ [] ≡ ys ++ replicate n 0
        → unpad_zero (pad_zero (1 ∷ 2 ∷ [])) ≡ ys)
padding_test = unpad_zero-pad_zero (1 ∷ 2 ∷ [])

handle_handshake_lem_example :
    Handled ℕ toy config request waiting (handle_handshake ℕ toy config request waiting)
handle_handshake_lem_example = handle_handshake_lem ℕ toy config request waiting

abbrev session_of : LanSession
session_of = keys toy (0x6B ∷ []) (0x61 ∷ []) (0x62 ∷ []) (pos 1700000000) (pos 1700000010)

abbrev connected : LanServer ℕ
connected = record waiting {
  session = some session_of;
  seq = 0;
  last_activity = some 50;
  last_handshake_time1 = ("192.168.1.5", pos 1700000000) ∷ [];
}

handshake_done :
    handle_handshake ℕ toy config request waiting
    ≡ (accepted (0x62 ∷ []) (pos 1700000010), connected)
unfolding handle_handshake is_peer_allowed is_member zone_free read_body exchange install is_skewed
    derive_session lookup insert rstrip
handshake_done = refl

session_derived :
    derive_session toy
      (0x6B ∷ [])
      (rstrip 0x3D (0x61 ∷ 0x3D ∷ []))
      (0x62 ∷ [])
      (pos 1700000000)
      (pos 1700000010)
    ≡ some session_of
unfolding derive_session rstrip
session_derived = refl

device_is_allowed : is_peer_allowed config "192.168.1.5" ≡ true
unfolding is_peer_allowed is_member zone_free
device_is_allowed = refl

polls-handshake_example :
    (read_commands toy session_of
        (polls ℕ toy toy_json config "192.168.1.5" (60 ∷ 61 ∷ 62 ∷ []) connected).0
      ≡ ok ((1 ∷ 7 ∷ 0x7D ∷ [], true) ∷ (2 ∷ 8 ∷ 0x7D ∷ [], true) ∷ (3 ∷ 0x7D ∷ [], true) ∷ []))
    × ((polls ℕ toy toy_json config "192.168.1.5" (60 ∷ 61 ∷ 62 ∷ []) connected).1.pending ≡ [])
polls-handshake_example =
    polls-handshake ℕ toy toy_json config toy-IsSound request waiting connected (0x62 ∷ [])
      (pos 1700000010) exchange_body session_of "192.168.1.5" (60 ∷ 61 ∷ 62 ∷ [])
      toy_dumps-EndsNonzero handshake_done refl session_derived device_is_allowed

session_of-IsSession : IsSession toy toy-IsSound session_of
session_of-IsSession = derive_session-IsSession toy toy-IsSound _ _ _ _ _ session_of session_derived

pushes-send_datapoints_example :
    (encs : List (List ℕ)) × (send_datapoints toy session_of ((5 ∷ []) ∷ (6 ∷ 1 ∷ []) ∷ [])
      ≡ ok encs)
    × ((pushes ℕ toy toy_json config "192.168.1.5" 70 encs connected).0 ≡ some 5 ∷ some 6 ∷ [])
pushes-send_datapoints_example =
    pushes-send_datapoints ℕ toy toy_json config toy-IsSound ((5 ∷ []) ∷ (6 ∷ 1 ∷ []) ∷ [])
      session_of session_of connected "192.168.1.5" 70
      (λ h. absurd (omega arith), ((λ h. absurd (omega arith)), tt)) device_is_allowed refl
      (record { key = refl; iv = refl }) session_of-IsSession

handle_property_push_lem_example :
    let p =
      handle_property_push ℕ toy toy_json config "192.168.1.5"
        (some (replicate 16 9))
        70
        connected in
    (p.server.seq ≡ 0)
    × (p.server.pending ≡ 7 ∷ 8 ∷ [])
    × (p.server.last_handshake_time1 ≡ connected.last_handshake_time1)
    × (is_peer_allowed config "192.168.1.5" ≡ false
        → p ≡ record { reply = forbidden; delivered = none; server = connected })
    × (is_peer_allowed config "192.168.1.5" ≡ true → p.reply ≡ received)
    × ((session : LanSession) (e decoded raw : List ℕ)
        → is_peer_allowed config "192.168.1.5" ≡ true
        → some (replicate 16 9) ≡ some e
        → some session_of ≡ some session
        → ok e ≡ ok decoded
        → ok decoded ≡ ok raw
        → (p.server.session ≡ some (record session { dev_iv = last_block decoded }))
          × (p.server.last_activity ≡ some 70))
handle_property_push_lem_example =
    handle_property_push_lem ℕ toy toy_json config toy-IsSound "192.168.1.5" (some (replicate 16 9))
      70 connected

Reach-AtLeast_example :
    AtLeast 1699998999
      (lookup "192.168.1.5" (handle_handshake ℕ toy config request waiting).1.last_handshake_time1)
unfolding lookup
Reach-AtLeast_example =
    Reach-AtLeast ℕ toy toy_json config 1699998999 "192.168.1.5" {s = waiting} (omega arith)
      (next here (handshake request))
