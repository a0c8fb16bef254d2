-- ===== src/Coordinator/Command/Laws.antt =====
-- What `send_command_lan` queues, and when it leaves the command to the cloud.
use delonghi_ha.Prelude.{
  ℕ, ◌+◌, ◌≤◌, List, [], ◌∷◌, ◌++◌, map, take, Bool, true, false, not, String, Option, none, some,
  if◌then◌else◌, ◌≡◌, refl, ap, ap₂, arith,
}
use delonghi_ha.Cloud.Send.{
  CmdProperty, data_request, app_data_request, attempts_for, Reply, Request, request_of,
}
use delonghi_ha.Lan.Crypto.{LanSession}
use delonghi_ha.Lan.Server.{LanServer, is_session_alive, seen_within, enqueue_command}
use delonghi_ha.Coordinator.Command.{
  lan_session_stale_seconds, Property, Payload, property_name, lan_property, payload_for,
  has_session, send_command_lan,
}

-- The request of an entry.
abbrev pub as_request : Property → Request
as_request p = record { to = p.name; packet = p.value }

-- How many of the cloud's attempts go over the local network: all, or the first for an unknown model.
abbrev pub shapes : Option CmdProperty → ℕ
shapes none = 1
shapes (some p) = 2

module _ (dsn : String) (ecam : List ℕ) where
  payload_for-attempts :
      (post : Request → Reply) (cmd : Option CmdProperty) (time : ℕ)
      → map as_request (payload_for dsn ecam cmd time time).properties
        ≡ map (request_of post ecam time) (take (shapes cmd) (attempts_for cmd))
  unfolding payload_for lan_property property_name attempts_for
  payload_for-attempts post (some data_request) time = refl
  payload_for-attempts post (some app_data_request) time = refl
  payload_for-attempts post none time = refl

-- A session whose device was heard of in the last 30 seconds.
abbrev pub Live : LanServer Payload → ℕ → Type 0
Live server now =
    (session : LanSession) × (last : ℕ) × (server.session ≡ some session)
    × (server.last_activity ≡ some last)
    × (now ≤ last + lan_session_stale_seconds)

alive_at :
    (session : Option LanSession) (last : Option ℕ) (now : ℕ)
    → (elim session [ none ↦ false | some x ↦ seen_within last now lan_session_stale_seconds ])
      ≡ true
    → (x : LanSession) × (l : ℕ) × (session ≡ some x)
      × (last ≡ some l)
      × (now ≤ l + lan_session_stale_seconds)
unfolding seen_within
alive_at none last now h = cc
alive_at (some x) none now h = cc
alive_at (some x) (some l) now h = (x, l, refl, refl, ground (arith, h))

alive-Live :
    (server : LanServer Payload) (now : ℕ)
    → is_session_alive server now lan_session_stale_seconds ≡ true
    → Live server now
unfolding is_session_alive
alive-Live server now h = alive_at server.session server.last_activity now h

dead_at :
    (session : Option LanSession) (last : Option ℕ) (now : ℕ) (x : LanSession) (l : ℕ)
    → session ≡ some x
    → last ≡ some l
    → now ≤ l + lan_session_stale_seconds
    → (elim session [ none ↦ false | some x ↦ seen_within last now lan_session_stale_seconds ])
      ≡ true
unfolding seen_within
dead_at none last now x l e f h = cc
dead_at (some x') none now x l e f h = cc
dead_at (some x') (some l') now x l e f h = let same : l' ≡ l = cc f in ground (arith, same, h)

Live-alive :
    (server : LanServer Payload) (now : ℕ)
    → Live server now
    → is_session_alive server now lan_session_stale_seconds ≡ true
unfolding is_session_alive
Live-alive server now (x, l, e, f, h) = dead_at server.session server.last_activity now x l e f h

Live-session :
    (server : LanServer Payload) (now : ℕ) → Live server now → has_session server.session ≡ true
Live-session server now h = ap has_session h.2

-- The three ways through `send_command_lan`.
module _ {A : Type 0} (refused accepted : A) where
  abbrev way : Bool → Bool → Bool × A
  way held alive =
      if not held
      then (false, refused)
      else if not alive
      then (false, refused)
      else (true, accepted)

  way-refused : (held alive : Bool) → (way held alive).0 ≡ false → way held alive ≡ (false, refused)
  way-refused true true h = cc
  way-refused true false h = refl
  way-refused false alive h = refl

  way-accepted : (held alive : Bool) → (way held alive).0 ≡ true → alive ≡ true
  way-accepted true true h = refl
  way-accepted true false h = cc
  way-accepted false alive h = cc

-- What a command does: it is queued behind the others, or nothing changes.
pub record Sends (dsn : String) (ecam : List ℕ) (cmd : Option CmdProperty) (time_1 time_2 now : ℕ)
    (server : LanServer Payload) : Type 0 where
  pub queued :
      Live server now
      → send_command_lan dsn ecam cmd time_1 time_2 now (some server) ≡ (
        true,
        some (record server {
          pending = server.pending ++ (payload_for dsn ecam cmd time_1 time_2 ∷ []);
        }),
      )
  pub left :
      (send_command_lan dsn ecam cmd time_1 time_2 now (some server)).0 ≡ false
      → (Live server now → ⊥)
        × (send_command_lan dsn ecam cmd time_1 time_2 now (some server) ≡ (false, some server))
  pub taken :
      (send_command_lan dsn ecam cmd time_1 time_2 now (some server)).0 ≡ true → Live server now
  pub same_requests :
      (post : Request → Reply) (time : ℕ)
      → map as_request (payload_for dsn ecam cmd time time).properties
        ≡ map (request_of post ecam time) (take (shapes cmd) (attempts_for cmd))

-- A command is queued behind those that wait exactly if the server has a session whose device was heard
-- of in the last 30 seconds, and otherwise it is refused and nothing changes. What is queued are the
-- requests that the cloud path would post at the same time: all its attempts for a known model, the first
-- of them for an unknown one.
pub send_command_lan_lem :
    (dsn : String) (ecam : List ℕ) (cmd : Option CmdProperty) (time_1 time_2 now : ℕ)
    (server : LanServer Payload)
    → Sends dsn ecam cmd time_1 time_2 now server
unfolding send_command_lan enqueue_command
send_command_lan_lem dsn ecam cmd time_1 time_2 now server = record {
  queued = queued;
  left = λ e. (
    (λ h.
        let sent = ap (λ (run : Bool × Option (LanServer Payload)). run.0) (queued h) in
        cc (sent, e)),
    way-refused (some server) (some after) (has_session server.session)
        (is_session_alive server now lan_session_stale_seconds) e,
  );
  taken = λ e. alive-Live server now (
      way-accepted (some server) (some after) (has_session server.session)
        (is_session_alive server now lan_session_stale_seconds) e);
  same_requests = λ post time. payload_for-attempts dsn ecam post cmd time;
}
  where
    after : LanServer Payload
    after = record server {
      pending = server.pending ++ (payload_for dsn ecam cmd time_1 time_2 ∷ []);
    }

    queued :
        Live server now
        → way
            (some server)
            (some after)
            (has_session server.session)
            (is_session_alive server now lan_session_stale_seconds)
          ≡ (true, some after)
    queued h =
        ap₂ (way (some server) (some after)) (Live-session server now h) (Live-alive server now h)
