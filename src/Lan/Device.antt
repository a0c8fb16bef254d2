-- ===== src/Lan/Device.antt =====
-- The device's side of a session, as `run_lan_diagnostic` plays it
-- (custom_components/delonghi_coffee/lan.py), and a number of polls and pushes in a row.
pub mod Laws
pub mod Push
use delonghi_ha.Prelude.{ℕ, ◌+◌, List, [], ◌∷◌, ◌++◌, Bool, String, Option, none, some}
use delonghi_ha.Prelude.Raise.{Result, ok, raise, api, ◌>>=◌}
use delonghi_ha.Lan.Crypto.{
  Primitives, LanSession, aes_encrypt, aes_decrypt, rotate_iv, verify_signature,
}
use delonghi_ha.Lan.Server.{LanServerConfig, LanServer}
use delonghi_ha.Lan.Server.Traffic.{
  Json, PollReply, forbidden, empty, served, Pushed, handle_command_poll, handle_property_push,
}

module _ (prim : Primitives) where
  -- A command that was polled, whether its signature is right, and the session after it.
  unfoldable pub read_command : LanSession → PollReply → Result ((List ℕ × Bool) × LanSession)
  read_command dev forbidden = raise api
  read_command dev (empty seq) = raise api
  read_command dev (served enc sign seq) = do
    plaintext ← aes_decrypt prim enc dev.app_crypto_key dev.app_iv
    iv ← rotate_iv prim enc
    ok (
      (plaintext, verify_signature prim dev.app_sign_key plaintext sign),
      record dev { app_iv = iv },
    )

  unfoldable pub read_commands : LanSession → List PollReply → Result (List (List ℕ × Bool))
  read_commands dev [] = ok []
  read_commands dev (r ∷ rest) = do
    (command, after) ← read_command dev r
    commands ← read_commands after rest
    ok (command ∷ commands)

  -- A datapoint to push.
  unfoldable pub send_datapoint : LanSession → List ℕ → Result (List ℕ × LanSession)
  send_datapoint dev payload = do
    enc ← aes_encrypt prim payload dev.dev_crypto_key dev.dev_iv
    iv ← rotate_iv prim enc
    ok (enc, record dev { dev_iv = iv })

  unfoldable pub send_datapoints : LanSession → List (List ℕ) → Result (List (List ℕ))
  send_datapoints dev [] = ok []
  send_datapoints dev (p ∷ rest) = do
    (enc, after) ← send_datapoint dev p
    encs ← send_datapoints after rest
    ok (enc ∷ encs)

module _ (D : Type 0) (prim : Primitives) (json : Json D) (config : LanServerConfig) where
  -- Polls at the given times.
  unfoldable pub polls : String → List ℕ → LanServer D → List PollReply × LanServer D
  polls peer [] s = ([], s)
  polls peer (now ∷ rest) s =
      let one = handle_command_poll D prim json config peer now s in
      let more = polls peer rest one.1 in (one.0 ∷ more.0, more.1)

  -- Pushes, all at one time: what is delivered, in order.
  unfoldable pub pushes : String → ℕ → List (List ℕ) → LanServer D → List (Option D) × LanServer D
  pushes peer now [] s = ([], s)
  pushes peer now (enc ∷ rest) s =
      let one = handle_property_push D prim json config peer (some enc) now s in
      let more = pushes peer now rest one.server in (one.delivered ∷ more.0, more.1)
