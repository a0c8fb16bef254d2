-- ===== src/Lan/Server/Trace.antt =====
-- The runs of the local server: any requests and commands, in any order.
pub mod Laws
use delonghi_ha.Prelude.{ℕ, List, String, Option}
use delonghi_ha.Lan.Crypto.{Primitives}
use delonghi_ha.Lan.Server.{LanServerConfig, LanServer, enqueue_command}
use delonghi_ha.Lan.Server.Handshake.{HandshakeRequest, handle_handshake}
use delonghi_ha.Lan.Server.Traffic.{Json, handle_command_poll, handle_property_push}

module _ (D : Type 0) (prim : Primitives) (json : Json D) (config : LanServerConfig) where
  pub data Step (s : LanServer D) : LanServer D → Type 0 where
    handshake : (r : HandshakeRequest) → Step s (handle_handshake D prim config r s).1
    poll : (peer : String) (now : ℕ) → Step s (handle_command_poll D prim json config peer now s).1
    push :
        (peer : String) (enc : Option (List ℕ)) (now : ℕ)
        → Step s (handle_property_push D prim json config peer enc now s).server
    enqueue : (d : D) → Step s (enqueue_command d s)

  pub data Reach (s : LanServer D) : LanServer D → Type 0 where
    here : Reach s s
    next : {t u : LanServer D} → Reach s t → Step t u → Reach s u
