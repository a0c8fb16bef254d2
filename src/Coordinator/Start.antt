-- ===== src/Coordinator/Start.antt =====
-- The start and the stop of the local server: `_try_start_lan`, `async_stop_lan`
-- (custom_components/delonghi_coffee/coordinator.py).
use delonghi_ha.Prelude.{
  ℕ, List, [], ◌∷◌, Bool, true, false, not, ◌||◌, String, str_eq, Option, none, some, if◌then◌else◌,
}
use delonghi_ha.Prelude.Raise.{Result, ok, raise}
use delonghi_ha.Lan.Server.{LanServerConfig, default_max_skew, trusted}

-- What the cloud says; the key is in bytes, and an empty text stands for a missing one too.
pub record LanConfig : Type 0 where
  pub lan_enabled : Bool
  pub lanip_key : List ℕ
  pub lan_ip : String

-- `_lan_config`, `_lan_start_attempted`, `_lan_server` by its configuration, and `_lan_active`.
pub record Lan : Type 0 where
  pub config : Option LanConfig
  pub start_attempted : Bool
  pub server : Option LanServerConfig
  pub active : Bool

-- What the network gives: the address of `_get_local_ip`, the start of the server, and the
-- registration with the device.
pub record LanCalls : Type 0 where
  pub local_ip : Option String
  pub start : Result (Unit {0})
  pub register : Result (Unit {0})

abbrev pub is_missing : List ℕ → Bool
is_missing [] = true
is_missing (b ∷ key) = false

unfoldable pub server_config : LanConfig → LanServerConfig
server_config c = record {
  lan_key = c.lanip_key;
  trusted_peers = trusted (c.lan_ip ∷ []);
  handshake_max_skew = default_max_skew;
}

-- After the registration; every exception is caught.
unfoldable pub registered : Result (Unit {0}) → Lan → Lan
registered (ok done) lan = record lan { active = true }
registered (raise e) lan = lan

unfoldable pub started : Result (Unit {0}) → LanCalls → LanConfig → Lan → Lan
started (raise e) calls c lan = lan
started (ok done) calls c lan =
    registered calls.register (record lan { server = some (server_config c) })

unfoldable pub start_on : Option String → LanCalls → LanConfig → Lan → Lan
start_on none calls c lan = lan
start_on (some ip) calls c lan = if str_eq ip "" then lan else started calls.start calls c lan

unfoldable pub start_with : LanCalls → LanConfig → Lan → Lan
start_with calls c lan =
    if not c.lan_enabled
    then lan
    else if is_missing c.lanip_key || str_eq c.lan_ip ""
    then lan
    else start_on calls.local_ip calls c lan

-- `lan = self._lan_config or {}`
unfoldable pub try_start_lan : LanCalls → Lan → Lan
try_start_lan calls lan = from_config lan.config (record lan { start_attempted = true })
  where
    from_config : Option LanConfig → Lan → Lan
    from_config none attempted = attempted
    from_config (some c) attempted = start_with calls c attempted

-- The condition at the call: `not self._lan_start_attempted and self._lan_config`.
unfoldable pub start_once : LanCalls → Lan → Lan
start_once calls lan = if lan.start_attempted then lan else once lan.config
  where
    once : Option LanConfig → Lan
    once none = lan
    once (some c) = try_start_lan calls lan

-- An exception of `stop` is caught.
unfoldable pub async_stop_lan : Lan → Lan
async_stop_lan lan = stopped lan.server
  where
    stopped : Option LanServerConfig → Lan
    stopped none = lan
    stopped (some server) = record lan { server = none; active = false }
