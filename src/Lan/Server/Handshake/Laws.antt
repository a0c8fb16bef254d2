-- ===== src/Lan/Server/Handshake/Laws.antt =====
-- When a handshake is accepted, and the ratchet of `time_1` for each peer.
use delonghi_ha.Prelude.{ℕ, List, true, false, not, Option, none, some, ◌≡◌, refl, arith, if_rule}
use delonghi_ha.Prelude.Int.{ℤ, pos}
use delonghi_ha.Prelude.Dict.{lookup, insert}
use delonghi_ha.Lan.Crypto.{Primitives, LanSession, derive_session, rstrip}
use delonghi_ha.Lan.Server.{LanServerConfig, LanServer, zone_free, is_peer_allowed}
use delonghi_ha.Lan.Server.Handshake.{
  HandshakeReply, forbidden, not_configured, bad_request, stale, clock_skew, crypto, accepted,
  KeyExchange, HandshakeRequest, floor_of, is_stale_time, is_skewed, install, exchange, read_body,
  handle_handshake, is_empty,
}

module _ (D : Type 0) (prim : Primitives) (config : LanServerConfig) where
  -- What an accepted handshake had, and did.
  pub record Accepts (r : HandshakeRequest) (s t : LanServer D) (random_2 : List ℕ) (time_2 : ℤ)
      : Type 0 where
    pub allowed : is_peer_allowed config r.peer ≡ true
    pub body : KeyExchange
    pub read : r.body ≡ some body
    pub fresh :
        is_stale_time (floor_of (lookup (zone_free r.peer) s.last_handshake_time1)) body.time_1
        ≡ false
    pub in_time : is_skewed config r.now body.time_1 ≡ false
    pub answer : (random_2 ≡ r.fresh_random) × (time_2 ≡ pos r.now)
    pub session : LanSession
    pub derived :
        derive_session prim config.lan_key (rstrip 0x3D body.random_1) random_2 body.time_1 time_2
        ≡ some session
    pub stored : t ≡ record s {
      session = some session;
      seq = 0;
      last_handshake_time1 = insert (zone_free r.peer) body.time_1 s.last_handshake_time1;
      last_activity = some r.monotonic;
    }

  abbrev pub Handled : HandshakeRequest → LanServer D → HandshakeReply × LanServer D → Type 0
  Handled r s (accepted random_2 time_2, t) = Accepts r s t random_2 time_2
  Handled r s (forbidden, t) = t ≡ s
  Handled r s (not_configured, t) = t ≡ s
  Handled r s (bad_request, t) = t ≡ s
  Handled r s (stale, t) = t ≡ s
  Handled r s (clock_skew, t) = t ≡ s
  Handled r s (crypto, t) = t ≡ s

  install-Handled :
      (session : Option LanSession) (r : HandshakeRequest) (body : KeyExchange) (s : LanServer D)
      → is_peer_allowed config r.peer ≡ true
      → r.body ≡ some body
      → is_stale_time (floor_of (lookup (zone_free r.peer) s.last_handshake_time1)) body.time_1
        ≡ false
      → is_skewed config r.now body.time_1 ≡ false
      → derive_session prim config.lan_key
          (rstrip 0x3D body.random_1)
          r.fresh_random
          body.time_1
          (pos r.now)
        ≡ session
      → Handled r s (install D prim config session r body.time_1 s)
  unfolding install
  install-Handled none r body s a b c d e = refl
  install-Handled (some session) r body s a b c d e = record {
    allowed = a;
    body = body;
    read = b;
    fresh = c;
    in_time = d;
    answer = (refl, refl);
    session = session;
    derived = e;
    stored = refl;
  }

  read_body-Handled :
      (b : Option KeyExchange) (r : HandshakeRequest) (s : LanServer D)
      → is_peer_allowed config r.peer ≡ true
      → r.body ≡ b
      → Handled r s (read_body D prim config b r s)
  unfolding read_body exchange
  read_body-Handled none r s a e = refl
  read_body-Handled (some body) r s a e =
      if_rule (Handled r s)
        (is_stale_time (floor_of (lookup (zone_free r.peer) s.last_handshake_time1)) body.time_1)
        (λ h. refl)
        (λ fresh.
          if_rule (Handled r s) (is_skewed config r.now body.time_1) (λ h. refl)
            (λ in_time. install-Handled _ r body s a e fresh in_time refl))

  -- A handshake is accepted only from a peer that is allowed, with both keys in its body, a time that is
  -- not below the peer's last one (unless that is 0), and, if the time is a wall clock's, within the
  -- skew; then the session is the one that both sides derive from the nonces and the reply, and the
  -- counter restarts. Any other handshake leaves the server as it was.
  pub handle_handshake_lem :
      (r : HandshakeRequest) (s : LanServer D) → Handled r s (handle_handshake D prim config r s)
  unfolding handle_handshake
  handle_handshake_lem r s =
      if_rule (Handled r s) (not (is_peer_allowed config r.peer)) (λ h. refl)
        (λ allowed.
          if_rule (Handled r s) (is_empty D prim config config.lan_key) (λ h. refl)
            (λ configured. read_body-Handled r.body r s (ground arith) refl))
