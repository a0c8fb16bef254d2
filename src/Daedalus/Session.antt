-- ===== src/Daedalus/Session.antt =====
-- One cycle of the second coordinator: `_async_update_data` and `_ensure_connected`
-- (custom_components/delonghi_daedalus/coordinator.py), with the client's calls.
pub mod Laws
use delonghi_ha.Prelude.{
  ℕ, Bool, true, false, not, ◌&&◌, String, str_eq, Option, none, some, if◌then◌else◌,
}
use delonghi_ha.Prelude.Int.{ℤ}
use delonghi_ha.Daedalus.Connect.{
  Failure, auth_error, connection_error, escaped, Tried, done, failed, Network, Attempted,
  connect_lan, Posted, refresh_jwt,
}

-- `self._lan`.
pub record Link : Type 0 where
  pub closed : Bool
  pub connection_id : ℤ

-- The entry's data that a cycle reads or writes, and the connection. A missing session token and an
-- empty one are the same.
pub record Daedalus : Type 0 where
  pub jwt : String
  pub session_token : String
  pub lan : Option Link

-- What the two attempts to connect and the request for a token meet, if they are made.
pub record Encounter : Type 0 where
  pub first : Network
  pub rotation : Posted
  pub second : Network

-- How a cycle ends: with data, with ConfigEntryAuthFailed, with UpdateFailed, or with an exception that
-- is not the client's.
pub data Ending : Type 0 where
  connected reauth update_failed crashed : Ending

-- The ending, the state, and how many attempts and requests for a token were made.
pub record Cycle : Type 0 where
  pub ending : Ending
  pub state : Daedalus
  pub attempts : ℕ
  pub rotations : ℕ

abbrev pub cycle_end : Ending → Daedalus → ℕ → ℕ → Cycle
cycle_end ending s attempts rotations = record {
  ending = ending;
  state = s;
  attempts = attempts;
  rotations = rotations;
}

unfoldable pub is_live : Option Link → Bool
is_live none = false
is_live (some link) = not link.closed

abbrev pub with_link : ℤ → Daedalus → Daedalus
with_link n s = record s { lan = some (record { closed = false; connection_id = n }) }

-- The attempt with the fresh token, which is stored.
unfoldable pub second_try : Tried ℤ → Daedalus → Cycle
second_try (done n) s = cycle_end connected (with_link n s) 2 1
second_try (failed auth_error) s = cycle_end reauth s 2 1
second_try (failed connection_error) s = cycle_end update_failed s 2 1
second_try (failed escaped) s = cycle_end crashed s 2 1

unfoldable pub after_rotation : Tried String → Network → Daedalus → Cycle
after_rotation (done jwt) second s = second_try (connect_lan second).answer (record s { jwt = jwt })
after_rotation (failed auth_error) second s = cycle_end reauth s 1 1
after_rotation (failed connection_error) second s = cycle_end update_failed s 1 1
after_rotation (failed escaped) second s = cycle_end crashed s 1 1

unfoldable pub first_try : Tried ℤ → Encounter → Daedalus → Cycle
first_try (done n) x s = cycle_end connected (with_link n s) 1 0
first_try (failed auth_error) x s =
    if str_eq s.session_token ""
    then cycle_end reauth s 1 0
    else after_rotation (refresh_jwt x.rotation) x.second s
first_try (failed connection_error) x s = cycle_end update_failed s 1 0
first_try (failed escaped) x s = cycle_end crashed s 1 0

unfoldable pub update_cycle : Encounter → Daedalus → Cycle
update_cycle x s =
    if is_live s.lan then cycle_end connected s 0 0 else first_try (connect_lan x.first).answer x s
