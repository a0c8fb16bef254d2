-- ===== src/Cloud/Ping.antt =====
-- `ping_connected` (custom_components/delonghi_coffee/api.py), once `_headers` has a token.
pub mod Laws
use delonghi_ha.Prelude.{
  ℕ, List, [], ◌∷◌, ◌++◌, Bool, true, false, ◌==◌, Option, none, some, if◌then◌else◌,
}
use delonghi_ha.Prelude.Raise.{Result, ok, raise, api, transport}
use delonghi_ha.Cloud.Send.{Reply, status, request_exception, timestamp, app_signature}

-- `_ping_supported`, and the packets posted so far.
pub record Ping : Type 0 where
  pub supported : Option Bool
  pub posted : List (List ℕ)

-- The packets of the loop, before base64.
unfoldable pub formats : ℕ → List (List ℕ)
formats now = (timestamp now ++ app_signature) ∷ timestamp now ∷ []

-- One answer. The last argument is the rest of the loop.
unfoldable pub pinged : Reply → Ping → (Ping → Result Bool × Ping) → Result Bool × Ping
pinged request_exception p continue = (raise transport, p)
pinged (status code) p continue =
    if code == 201
    then (ok true, record p { supported = some true })
    else if code == 404
    then continue p
    else (raise api, p)

module _ (post : List ℕ → Reply) where
  unfoldable pub ping_loop : List (List ℕ) → Ping → Result Bool × Ping
  ping_loop [] p = (ok false, record p { supported = some false })
  ping_loop (packet ∷ rest) p =
      pinged (post packet) (record p { posted = p.posted ++ (packet ∷ []) }) (λ q. ping_loop rest q)

  unfoldable pub ping_connected : ℕ → Option Bool → Result Bool × Ping
  ping_connected now (some false) = (ok false, record { supported = some false; posted = [] })
  ping_connected now (some true) =
      ping_loop (formats now) (record { supported = some true; posted = [] })
  ping_connected now none = ping_loop (formats now) (record { supported = none; posted = [] })
