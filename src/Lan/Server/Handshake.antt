-- ===== src/Lan/Server/Handshake.antt =====
-- `_handle_handshake` (custom_components/delonghi_coffee/lan.py).
pub mod Laws
use delonghi_ha.Prelude.{
  ℕ, zero, suc, ◌+◌, ◌-◌, List, [], ◌∷◌, Bool, true, false, not, ◌&&◌, ◌==◌, ltb, leb, String,
  Option, none, some, if◌then◌else◌,
}
use delonghi_ha.Prelude.Int.{ℤ, pos, negsuc}
use delonghi_ha.Prelude.Dict.{Dict, lookup, insert}
use delonghi_ha.Lan.Crypto.{Primitives, LanSession, derive_session, rstrip}
use delonghi_ha.Lan.Server.{LanServerConfig, LanServer, zone_free, is_peer_allowed}

-- The texts of the errors that a handshake is answered with; `accepted` carries `random_2` and `time_2`.
pub data HandshakeReply : Type 0 where
  forbidden not_configured bad_request stale clock_skew crypto : HandshakeReply
  accepted : List ℕ → ℤ → HandshakeReply

abbrev pub http_status : HandshakeReply → ℕ
http_status forbidden = 403
http_status not_configured = 400
http_status bad_request = 400
http_status stale = 400
http_status clock_skew = 400
http_status crypto = 400
http_status (accepted r t) = 202

-- `random_1` and `time_1` of a body, as its JSON has them.
pub record KeyExchange : Type 0 where
  pub random_1 : List ℕ
  pub time_1 : ℤ

-- What is outside a request: `request.remote or "unknown"`, the two clocks, and the twelve random
-- bytes as base64 without padding. A body without the two keys is `none`.
pub record HandshakeRequest : Type 0 where
  pub peer : String
  pub body : Option KeyExchange
  pub now : ℕ
  pub monotonic : ℕ
  pub fresh_random : List ℕ

abbrev pub non_wallclock_time1_threshold : ℕ
non_wallclock_time1_threshold = 5000000000

-- `x < y` of two integers
abbrev pub ltb_int : ℤ → ℤ → Bool
ltb_int (pos a) (pos b) = ltb a b
ltb_int (pos a) (negsuc b) = false
ltb_int (negsuc a) (pos b) = true
ltb_int (negsuc a) (negsuc b) = ltb b a

-- `abs(now - time_1)`
abbrev pub distance : ℕ → ℤ → ℕ
distance now (pos t) = (now - t) + (t - now)
distance now (negsuc n) = now + n + 1

-- `dict.get(peer, 0)`
abbrev pub floor_of : Option ℤ → ℤ
floor_of none = pos 0
floor_of (some t) = t

-- `peer_floor and time_1 < peer_floor`
abbrev pub is_stale_time : ℤ → ℤ → Bool
is_stale_time (pos zero) time_1 = false
is_stale_time (pos (suc n)) time_1 = ltb_int time_1 (pos (suc n))
is_stale_time (negsuc n) time_1 = ltb_int time_1 (negsuc n)

unfoldable pub is_skewed : LanServerConfig → ℕ → ℤ → Bool
is_skewed config now time_1 =
    ltb_int time_1 (pos non_wallclock_time1_threshold)
    && ltb config.handshake_max_skew (distance now time_1)

module _ (D : Type 0) (prim : Primitives) (config : LanServerConfig) where
  -- The assignments under the lock, with what `derive_session` gives.
  unfoldable pub install :
      Option LanSession → HandshakeRequest → ℤ → LanServer D → HandshakeReply × LanServer D
  install none r time_1 s = (crypto, s)
  install (some session) r time_1 s = (
    accepted r.fresh_random (pos r.now),
    record s {
      session = some session;
      seq = 0;
      last_handshake_time1 = insert (zone_free r.peer) time_1 s.last_handshake_time1;
      last_activity = some r.monotonic;
    },
  )

  -- The checks of a body that was read.
  unfoldable pub exchange :
      HandshakeRequest → List ℕ → ℤ → LanServer D → HandshakeReply × LanServer D
  exchange r random_1 time_1 s =
      if is_stale_time (floor_of (lookup (zone_free r.peer) s.last_handshake_time1)) time_1
      then (stale, s)
      else if is_skewed config r.now time_1
      then (clock_skew, s)
      else install (derive_session prim config.lan_key random_1 r.fresh_random time_1 (pos r.now)) r
          time_1 s

  unfoldable pub read_body :
      Option KeyExchange → HandshakeRequest → LanServer D → HandshakeReply × LanServer D
  read_body none r s = (bad_request, s)
  read_body (some body) r s = exchange r (rstrip 0x3D body.random_1) body.time_1 s

  abbrev pub is_empty : List ℕ → Bool
  is_empty [] = true
  is_empty (x ∷ xs) = false

  unfoldable pub handle_handshake : HandshakeRequest → LanServer D → HandshakeReply × LanServer D
  handle_handshake r s =
      if not (is_peer_allowed config r.peer)
      then (forbidden, s)
      else if is_empty config.lan_key
      then (not_configured, s)
      else read_body r.body r s
