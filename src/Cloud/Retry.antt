-- ===== src/Cloud/Retry.antt =====
-- The decorator `_retry` (custom_components/delonghi_coffee/api.py).
pub mod Rule
pub mod Laws
pub mod Delays
use delonghi_ha.Prelude.{
  ℕ, zero, suc, ◌+◌, ◌-◌, ◌*◌, ◌^◌, List, [], ◌∷◌, ◌++◌, Bool, true, false, ◌==◌, ltb, Option, none,
  some, if◌then◌else◌,
}
use delonghi_ha.Prelude.Raise.{
  Exception, auth, api, unsupported, value_error, index_error, key_error, transport, http, Result,
  ok, raise,
}

abbrev pub retry_count : ℕ
retry_count = 3

abbrev pub retry_delay : ℕ
retry_delay = 2

-- In milliseconds, as `monotonic` below.
abbrev pub reauth_dedup_window : ℕ
reauth_dedup_window = 10000

-- What of the client the decorator reads and writes, with the rest of the program's state as
-- `world`, and the delays slept so far, in seconds.
pub record Client (W : Type 0) : Type 0 where
  pub reauthenticating : Bool
  pub last_401_reauth : Option ℕ
  pub slept : List ℕ
  pub world : W

-- The function that is decorated is `func`, and `self_obj.authenticate` is `authenticate`. Both may
-- change the client. `time.monotonic` is a function of the client.
module _ {W A : Type 0} (func : Client W → Result A × Client W)
    (authenticate : Client W → Result Bool × Client W) (monotonic : Client W → ℕ) where
  abbrev sleep : ℕ → Client W → Client W
  sleep delay c = record c { slept = c.slept ++ (delay ∷ []) }

  -- The Python difference may be negative, which is below the window too.
  unfoldable pub recently_reauthed : Client W → Bool
  recently_reauthed c = elim c.last_401_reauth [
    | none ↦ false
    | some last ↦ ltb (monotonic c) (last + reauth_dedup_window)
  ]

  -- After `authenticate`: the time of success, and the `finally` clause.
  unfoldable pub authenticated : Result Bool × Client W → Result (Unit {0}) × Client W
  authenticated (ok done, c) =
      (ok tt, record c { last_401_reauth = some (monotonic c); reauthenticating = false })
  authenticated (raise e, c) = (raise e, record c { reauthenticating = false })

  -- What a 401 leads to, under the lock.
  unfoldable pub reauth : Client W → Result (Unit {0}) × Client W
  reauth c =
      if c.reauthenticating
      then (raise auth, c)
      else if recently_reauthed c
      then (ok tt, c)
      else authenticated (authenticate (record c { reauthenticating = true }))

  -- The end of the handler, for all errors but 429. The last argument is the rest of the loop.
  unfoldable pub backoff : ℕ → Client W → (Client W → Result A × Client W) → Result A × Client W
  backoff attempt c continue =
      if ltb attempt retry_count
      then continue (sleep (retry_delay * 2 ^ (attempt - 1)) c)
      else continue c

  unfoldable pub after_reauth :
      Result (Unit {0}) × Client W → ℕ → (Client W → Result A × Client W) → Result A × Client W
  after_reauth (raise e, c) attempt continue = (raise e, c)
  after_reauth (ok done, c) attempt continue = backoff attempt c continue

  -- The handlers of one call.
  unfoldable pub handle :
      Result A × Client W → ℕ → (Client W → Result A × Client W) → Result A × Client W
  handle (ok a, c) attempt continue = (ok a, c)
  handle (raise (http code), c) attempt continue =
      if code == 404
      then (raise (http code), c)
      else if code == 401
      then after_reauth (reauth c) attempt continue
      else if code == 429
      then continue (sleep (retry_delay * 2 ^ attempt) c)
      else backoff attempt c continue
  handle (raise transport, c) attempt continue = backoff attempt c continue
  handle (raise api, c) attempt continue = backoff attempt c continue
  handle (raise unsupported, c) attempt continue = (raise unsupported, c)
  handle (raise auth, c) attempt continue = (raise auth, c)
  handle (raise value_error, c) attempt continue = (raise value_error, c)
  handle (raise index_error, c) attempt continue = (raise index_error, c)
  handle (raise key_error, c) attempt continue = (raise key_error, c)

  -- The loop, with the attempts that are left and the number of the next.
  unfoldable pub retry_loop : ℕ → ℕ → Client W → Result A × Client W
  retry_loop zero attempt c = (raise api, c)
  retry_loop (suc left) attempt c =
      handle (func c) attempt (λ after. retry_loop left (attempt + 1) after)

  unfoldable pub retry : Client W → Result A × Client W
  retry c = retry_loop retry_count 1 c
