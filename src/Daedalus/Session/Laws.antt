-- ===== src/Daedalus/Session/Laws.antt =====
-- When a cycle asks for a token, and when it asks the user to sign in again.
use delonghi_ha.Prelude.{◌≤◌, true, String, str_eq, ◌≡◌, ◌⊎◌}
use delonghi_ha.Daedalus.Connect.{auth_error, done, failed, refresh_jwt}
use delonghi_ha.Daedalus.Connect.Laws.{Rejection}
use delonghi_ha.Daedalus.Session.{
  Daedalus, Encounter, Ending, connected, reauth, update_failed, crashed, Cycle, is_live,
}

-- Why the user is asked: the machine rejected the stored token, and there was no session token, or the
-- identity service rejected it, or the machine rejected the fresh token too.
abbrev pub Cause : Encounter → Daedalus → Type 0
Cause x s =
    Rejection x.first.receive
    × ((str_eq s.session_token "" ≡ true)
        ⊎ ((refresh_jwt x.rotation ≡ failed auth_error)
            ⊎ ((jwt : String) × (refresh_jwt x.rotation ≡ done jwt) × Rejection x.second.receive)))

-- What a cycle shows of its run.
pub record Sane (x : Encounter) (s : Daedalus) (c : Cycle) : Type 0 where
  pub few_attempts : c.attempts ≤ 2
  pub few_rotations : c.rotations ≤ 1
  pub rotated : c.rotations ≡ 1 → Rejection x.first.receive
  pub asked : c.ending ≡ reauth → Cause x s
  pub live : c.ending ≡ connected → is_live c.state.lan ≡ true
  pub token :
      (c.state.jwt ≡ s.jwt) ⊎ ((refresh_jwt x.rotation ≡ done c.state.jwt) × (c.rotations ≡ 1))
  pub same_session : c.state.session_token ≡ s.session_token

abbrev IsQuiet : Ending → Type 0
IsQuiet connected = ⊥
IsQuiet reauth = ⊥
IsQuiet update_failed = Unit {0}
IsQuiet crashed = Unit {0}

abbrev IsReauth : Ending → Type 0
IsReauth connected = ⊥
IsReauth reauth = Unit {0}
IsReauth update_failed = ⊥
IsReauth crashed = ⊥
