-- ===== src/Lan/Server/Trace/Laws.antt =====
-- The anti-replay ratchet, over every run of the server.
use delonghi_ha.Prelude.{
  ℕ, zero, suc, ◌≤◌, List, false, not, String, str_eq, eq_iff, Option, none, some, if◌then◌else◌,
  ◌≡◌, refl, sym, arith, if_rule,
}
use mathlib.Core.Path.{subst}
use delonghi_ha.Prelude.Int.{ℤ, pos, negsuc}
use delonghi_ha.Prelude.Raise.{Result, ok, raise}
use delonghi_ha.Prelude.Dict.{lookup, insert, lookup-insert}
use delonghi_ha.Lan.Crypto.{Primitives, LanSession}
use delonghi_ha.Lan.Server.{LanServerConfig, LanServer, is_peer_allowed, zone_free, enqueue_command}
use delonghi_ha.Lan.Server.Handshake.{
  HandshakeReply, forbidden, not_configured, bad_request, stale, clock_skew, crypto, accepted,
  HandshakeRequest, floor_of, is_stale_time,
}
use delonghi_ha.Lan.Server.Handshake.Laws.{Handled, Accepts, handle_handshake_lem}
use delonghi_ha.Lan.Server.Traffic.{
  Json, PollReply, reply_poll, poll_session, handle_command_poll, Pushed, deliver, push_session,
  push_envelope, handle_property_push,
}
use delonghi_ha.Lan.Server.Trace.{Step, handshake, poll, push, enqueue, Reach, here, next}

-- The last time of a peer is a positive number, `n` or more.
abbrev pub AtLeast : ℕ → Option ℤ → Type 0
AtLeast n none = ⊥
AtLeast n (some (pos m)) = suc n ≤ m
AtLeast n (some (negsuc m)) = ⊥

AtLeast-fresh :
    (n : ℕ) (last : Option ℤ) (time_1 : ℤ)
    → AtLeast n last
    → is_stale_time (floor_of last) time_1 ≡ false
    → AtLeast n (some time_1)
AtLeast-fresh n none time_1 h e = absurd h
AtLeast-fresh n (some (negsuc m)) time_1 h e = absurd h
AtLeast-fresh n (some (pos zero)) time_1 h e = absurd (omega arith)
AtLeast-fresh n (some (pos (suc m))) (pos t) h e = ground arith
AtLeast-fresh n (some (pos (suc m))) (negsuc t) h e = cc

module _ (D : Type 0) (prim : Primitives) (json : Json D) (config : LanServerConfig) where
  abbrev last_time : String → LanServer D → Option ℤ
  last_time p s = lookup p s.last_handshake_time1

  accepted-AtLeast :
      (n : ℕ) (p : String) (r : HandshakeRequest) (s t : LanServer D) (random_2 : List ℕ)
      (time_2 : ℤ)
      → Accepts D prim config r s t random_2 time_2
      → AtLeast n (last_time p s)
      → AtLeast n (last_time p t)
  accepted-AtLeast n p r s t random_2 time_2 h floor =
      subst (λ u. AtLeast n (last_time p u)) (sym h.stored)
        (subst (AtLeast n) (sym moved) (
          if_rule (AtLeast n) (str_eq p (zone_free r.peer))
            (λ e. AtLeast-fresh n (last_time p s) h.body.time_1 floor (
              subst (λ q. is_stale_time (floor_of (last_time q s)) h.body.time_1 ≡ false)
                (sym ((eq_iff p (zone_free r.peer)).0 e)) h.fresh))
            (λ e. floor)))
    where
      moved :
          lookup p (insert (zone_free r.peer) h.body.time_1 s.last_handshake_time1)
          ≡ (if str_eq p (zone_free r.peer) then some h.body.time_1 else last_time p s)
      moved = lookup-insert s.last_handshake_time1 (zone_free r.peer) p h.body.time_1

  Handled-AtLeast :
      (n : ℕ) (p : String) (r : HandshakeRequest) (s : LanServer D)
      (o : HandshakeReply × LanServer D)
      → Handled D prim config r s o
      → AtLeast n (last_time p s)
      → AtLeast n (last_time p o.1)
  Handled-AtLeast n p r s (accepted random_2 time_2, t) h floor =
      accepted-AtLeast n p r s t random_2 time_2 h floor
  Handled-AtLeast n p r s (forbidden, t) h floor =
      subst (λ u. AtLeast n (last_time p u)) (sym h) floor
  Handled-AtLeast n p r s (not_configured, t) h floor =
      subst (λ u. AtLeast n (last_time p u)) (sym h) floor
  Handled-AtLeast n p r s (bad_request, t) h floor =
      subst (λ u. AtLeast n (last_time p u)) (sym h) floor
  Handled-AtLeast n p r s (stale, t) h floor = subst (λ u. AtLeast n (last_time p u)) (sym h) floor
  Handled-AtLeast n p r s (clock_skew, t) h floor =
      subst (λ u. AtLeast n (last_time p u)) (sym h) floor
  Handled-AtLeast n p r s (crypto, t) h floor = subst (λ u. AtLeast n (last_time p u)) (sym h) floor

  reply_poll-floors :
      (e : Result (List ℕ × List ℕ × LanSession)) (seq : ℕ) (s : LanServer D)
      → (reply_poll D prim json config e seq s).1.last_handshake_time1 ≡ s.last_handshake_time1
  unfolding reply_poll
  reply_poll-floors (ok x) seq s = refl
  reply_poll-floors (raise e) seq s = refl

  poll-floors :
      (peer : String) (now : ℕ) (session : Option LanSession) (s : LanServer D)
      → (poll_session D prim json config session now s).1.last_handshake_time1
        ≡ s.last_handshake_time1
  unfolding poll_session
  poll-floors peer now none s = refl
  poll-floors peer now (some session) s = reply_poll-floors _ _ _

  deliver-floors :
      (e : Result (List ℕ × LanSession)) (now : ℕ) (s : LanServer D)
      → (deliver D prim json config e now s).server.last_handshake_time1 ≡ s.last_handshake_time1
  unfolding deliver
  deliver-floors (ok x) now s = refl
  deliver-floors (raise e) now s = refl

  push_session-floors :
      (session : Option LanSession) (enc : List ℕ) (now : ℕ) (s : LanServer D)
      → (push_session D prim json config session enc now s).server.last_handshake_time1
        ≡ s.last_handshake_time1
  unfolding push_session
  push_session-floors none enc now s = refl
  push_session-floors (some session) enc now s = deliver-floors _ now s

  push_envelope-floors :
      (enc : Option (List ℕ)) (now : ℕ) (s : LanServer D)
      → (push_envelope D prim json config enc now s).server.last_handshake_time1
        ≡ s.last_handshake_time1
  unfolding push_envelope
  push_envelope-floors none now s = refl
  push_envelope-floors (some enc) now s = push_session-floors s.session enc now s

  Step-AtLeast :
      (n : ℕ) (p : String) {s t : LanServer D}
      → Step D prim json config s t
      → AtLeast n (last_time p s)
      → AtLeast n (last_time p t)
  unfolding handle_command_poll handle_property_push enqueue_command
  Step-AtLeast n p {s = s} (handshake r) h =
      Handled-AtLeast n p r s _ (handle_handshake_lem D prim config r s) h
  Step-AtLeast n p {s = s} (poll peer now) h =
      if_rule (λ (o : PollReply × LanServer D). AtLeast n (last_time p o.1))
        (not (is_peer_allowed config peer)) (λ e. h)
        (λ e. subst (λ d. AtLeast n (lookup p d)) (sym (poll-floors peer now s.session s)) h)
  Step-AtLeast n p {s = s} (push peer enc now) h =
      if_rule (λ (o : Pushed D). AtLeast n (last_time p o.server))
        (not (is_peer_allowed config peer)) (λ e. h)
        (λ e. subst (λ d. AtLeast n (lookup p d)) (sym (push_envelope-floors enc now s)) h)
  Step-AtLeast n p (enqueue d) h = h

  -- Once a peer's last accepted time is a positive number, it never falls below it again, whatever
  -- requests come from that peer or any other, and in any order.
  pub Reach-AtLeast :
      (n : ℕ) (p : String) {s t : LanServer D}
      → AtLeast n (lookup p s.last_handshake_time1)
      → Reach D prim json config s t
      → AtLeast n (lookup p t.last_handshake_time1)
  Reach-AtLeast n p h here = h
  Reach-AtLeast n p h (next run step) = Step-AtLeast n p step (Reach-AtLeast n p h run)
