-- ===== src/Lan/Server.antt =====
-- `DeLonghiLanServer` and its handlers (custom_components/delonghi_coffee/lan.py). Each handler runs
-- under the lock, so a run of the server is a sequence of them.
pub mod Handshake
pub mod Traffic
pub mod Trace
use Prim.Native.Char.{code}
use delonghi_ha.Prelude.{
  ℕ, ◌+◌, ◌-◌, List, [], ◌∷◌, ◌++◌, Bool, true, false, not, ◌||◌, ◌&&◌, ◌==◌, ltb, leb, String,
  str_eq, Option, none, some, if◌then◌else◌,
}
use delonghi_ha.Prelude.Int.{ℤ, pos, negsuc}
use delonghi_ha.Prelude.Dict.{Dict}
use delonghi_ha.Lan.Crypto.{Primitives, LanSession}

-- The configuration that the handlers read: `lan_key`, `handshake_max_skew` in seconds, and the set
-- `_trusted_peers` that `__init__` makes.
pub record LanServerConfig : Type 0 where
  pub lan_key : List ℕ
  pub trusted_peers : List String
  pub handshake_max_skew : ℕ

abbrev pub default_max_skew : ℕ
default_max_skew = 1800

-- `__init__`: with an allowlist, the loopback addresses are trusted too.
unfoldable pub trusted : List String → List String
trusted [] = []
trusted (p ∷ ps) = "127.0.0.1" ∷ "::1" ∷ p ∷ ps

-- What the handlers change. Commands and datapoints are of a type `D` of JSON objects; `_last_activity`
-- is in whole seconds.
pub record LanServer (D : Type 0) : Type 0 where
  pub session : Option LanSession
  pub last_activity : Option ℕ
  pub seq : ℕ
  pub pending : List D
  pub last_handshake_time1 : Dict ℤ

abbrev pub new_server : (D : Type 0) → LanServer D
new_server D = record {
  session = none;
  last_activity = none;
  seq = 0;
  pending = [];
  last_handshake_time1 = [];
}

-- `peer.split("%", 1)[0]`
unfoldable pub zone_free : String → String
zone_free String.[] = ""
zone_free (String.◌∷◌ c rest) = if code c == 0x25 then "" else String.◌∷◌ c (zone_free rest)

unfoldable pub is_member : String → List String → Bool
is_member name [] = false
is_member name (n ∷ rest) = str_eq name n || is_member name rest

-- `_is_peer_allowed`; `request.remote or "unknown"` is never None.
unfoldable pub is_peer_allowed : LanServerConfig → String → Bool
is_peer_allowed config peer = allowed_by config.trusted_peers (zone_free peer)
  where
    allowed_by : List String → String → Bool
    allowed_by [] name = true
    allowed_by (p ∷ ps) name = is_member name (p ∷ ps)

-- `is_session_alive`, at a time of the monotonic clock.
unfoldable pub seen_within : Option ℕ → ℕ → ℕ → Bool
seen_within none now max_age = false
seen_within (some last) now max_age = leb now (last + max_age)

unfoldable pub is_session_alive : {D : Type 0} → LanServer D → ℕ → ℕ → Bool
is_session_alive s now max_age = elim s.session [
  | none ↦ false
  | some session ↦ seen_within s.last_activity now max_age
]

unfoldable pub enqueue_command : {D : Type 0} → D → LanServer D → LanServer D
enqueue_command d s = record s { pending = s.pending ++ (d ∷ []) }
