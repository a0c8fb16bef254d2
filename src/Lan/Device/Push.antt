-- ===== src/Lan/Device/Push.antt =====
-- Datapoints arrive whole and in order, and what a push that the device did not make can do.
use delonghi_ha.Prelude.{
  ℕ, List, [], ◌∷◌, true, false, not, String, Option, none, some, ◌≡◌, refl, ap, ap₂, ◌∙◌, All, map,
  if_rule,
}
use delonghi_ha.Prelude.Raise.{Result, ok, raise}
use delonghi_ha.Lan.Crypto.{
  Primitives, LanSession, aes_encrypt, aes_decrypt, rotate_iv, unpad_zero, last_block,
  decrypt_device_to_app,
}
use delonghi_ha.Lan.Crypto.Laws.{IsSound, EndsNonzero, sent, IsSession}
use delonghi_ha.Lan.Server.{LanServerConfig, LanServer, is_peer_allowed}
use delonghi_ha.Lan.Server.Traffic.{
  Json, forbidden, received, Pushed, deliver, push_session, push_envelope, handle_property_push,
}
use delonghi_ha.Lan.Device.{send_datapoint, send_datapoints, pushes}

module _ (D : Type 0) (prim : Primitives) (json : Json D) (config : LanServerConfig)
    (sound : IsSound prim) where
  -- The two sides of the direction from the device.
  pub record AgreeUp (dev session : LanSession) : Type 0 where
    pub key : dev.dev_crypto_key ≡ session.dev_crypto_key
    pub iv : dev.dev_iv ≡ session.dev_iv

  sends :
      (dev : LanSession) (text enc iv : List ℕ)
      → aes_encrypt prim text dev.dev_crypto_key dev.dev_iv ≡ ok enc
      → rotate_iv prim enc ≡ ok iv
      → send_datapoint prim dev text ≡ ok (enc, record dev { dev_iv = iv })
  unfolding send_datapoint
  sends dev text enc iv done rotated = simp (done, rotated) refl

  decrypts :
      (session : LanSession) (enc text iv : List ℕ)
      → aes_decrypt prim enc session.dev_crypto_key session.dev_iv ≡ ok text
      → rotate_iv prim enc ≡ ok iv
      → decrypt_device_to_app prim session enc ≡ ok (text, record session { dev_iv = iv })
  unfolding decrypt_device_to_app
  decrypts session enc text iv plain rotated = simp (plain, rotated) refl

  pushed :
      (s : LanServer D) (session after : LanSession) (enc text : List ℕ) (peer : String) (now : ℕ)
      → s.session ≡ some session
      → is_peer_allowed config peer ≡ true
      → decrypt_device_to_app prim session enc ≡ ok (text, after)
      → handle_property_push D prim json config peer (some enc) now s ≡ record {
        reply = received;
        delivered = json.loads text;
        server = record s { session = some after; last_activity = some now };
      }
  unfolding handle_property_push push_envelope push_session deliver
  pushed s session after enc text peer now live allowed done = simp (allowed, live, done) refl

  send_step :
      (dev after : LanSession) (text enc : List ℕ) (rest encs : List (List ℕ))
      → send_datapoint prim dev text ≡ ok (enc, after)
      → send_datapoints prim after rest ≡ ok encs
      → send_datapoints prim dev (text ∷ rest) ≡ ok (enc ∷ encs)
  unfolding send_datapoints
  send_step dev after text enc rest encs one more = simp (one, more) refl

  -- Datapoints that the device encrypts one after the other and pushes are delivered as their JSON,
  -- in order, if both sides start with the same key and IV of the right lengths, the texts do not end
  -- in a zero byte, and the peer is allowed.
  pub pushes-send_datapoints :
      (texts : List (List ℕ)) (dev session : LanSession) (s : LanServer D) (peer : String) (now : ℕ)
      → All EndsNonzero texts
      → is_peer_allowed config peer ≡ true
      → s.session ≡ some session
      → AgreeUp dev session
      → IsSession prim sound session
      → (encs : List (List ℕ)) × (send_datapoints prim dev texts ≡ ok encs)
        × ((pushes D prim json config peer now encs s).0 ≡ map json.loads texts)
  unfolding pushes
  pushes-send_datapoints [] dev session s peer now ends allowed live agree good =
      ([], unfold send_datapoints in refl, refl)
  pushes-send_datapoints (text ∷ rest) dev session s peer now ends allowed live agree good =
      let m =
        sent prim sound session.dev_crypto_key session.dev_iv text good.dev_key good.dev_iv
          ends.0 in
      let after = record session { dev_iv = m.next_iv } in
      let whole =
        pushed s session after m.enc text peer now live allowed
          (decrypts session m.enc text m.next_iv m.decrypted m.rotated) in
      let (encs, sent_rest, got) =
        pushes-send_datapoints rest (record dev { dev_iv = m.next_iv }) after
          (handle_property_push D prim json config peer (some m.enc) now s).server peer now ends.1
          allowed (ap (λ p. p.server.session) whole) (record { key = agree.key; iv = refl })
          (record {
            app_key = good.app_key;
            app_iv = good.app_iv;
            dev_key = good.dev_key;
            dev_iv = m.next_length;
          }) in
      (
        m.enc ∷ encs,
        send_step dev _ text m.enc rest encs
            (sends dev text m.enc m.next_iv
              (ap₂ (aes_encrypt prim text) agree.key agree.iv ∙ m.encrypted) m.rotated)
            sent_rest,
        ap₂ (◌∷◌) (ap (λ p. p.delivered) whole) got,
      )

  -- What no push changes, and the answer of one that is let in.
  abbrev Keeps : LanServer D → Pushed D → Type 0
  Keeps s p =
      (p.server.seq ≡ s.seq)
      × (p.server.pending ≡ s.pending)
      × (p.server.last_handshake_time1 ≡ s.last_handshake_time1)
      × (p.reply ≡ received)

  deliver-Keeps :
      (r : Result (List ℕ × LanSession)) (now : ℕ) (s : LanServer D)
      → Keeps s (deliver D prim json config r now s)
  unfolding deliver
  deliver-Keeps (ok x) now s = (refl, refl, refl, refl)
  deliver-Keeps (raise e) now s = (refl, refl, refl, refl)

  session-Keeps :
      (session : Option LanSession) (enc : List ℕ) (now : ℕ) (s : LanServer D)
      → Keeps s (push_session D prim json config session enc now s)
  unfolding push_session
  session-Keeps none enc now s = (refl, refl, refl, refl)
  session-Keeps (some session) enc now s = deliver-Keeps _ now s

  envelope-Keeps :
      (enc : Option (List ℕ)) (now : ℕ) (s : LanServer D)
      → Keeps s (push_envelope D prim json config enc now s)
  unfolding push_envelope
  envelope-Keeps none now s = (refl, refl, refl, refl)
  envelope-Keeps (some enc) now s = session-Keeps s.session enc now s

  let_in :
      (session : LanSession) (e decoded raw : List ℕ) (peer : String) (now : ℕ) (s : LanServer D)
      → is_peer_allowed config peer ≡ true
      → s.session ≡ some session
      → prim.b64decode e ≡ ok decoded
      → prim.cbc_decrypt session.dev_crypto_key session.dev_iv decoded ≡ ok raw
      → handle_property_push D prim json config peer (some e) now s ≡ record {
        reply = received;
        delivered = json.loads (unpad_zero raw);
        server = record s {
          session = some (record session { dev_iv = last_block decoded });
          last_activity = some now;
        };
      }
  unfolding aes_decrypt rotate_iv
  let_in session e decoded raw peer now s allowed live base plain =
      pushed s session _ e _ peer now live allowed (
        decrypts session e (unpad_zero raw) (last_block decoded) (simp (base, plain) refl)
          (simp base refl))

  -- A push never changes the queue, the counter or the ratchet; from a peer that is not allowed it
  -- changes nothing, and every other one is answered 200. A text that base64 and AES can decrypt, which is
  -- all that is asked of it, counts as a sign of life and moves the IV on to its own last block,
  -- whoever made it.
  pub handle_property_push_lem :
      (peer : String) (enc : Option (List ℕ)) (now : ℕ) (s : LanServer D)
      → let p = handle_property_push D prim json config peer enc now s in
        (p.server.seq ≡ s.seq)
        × (p.server.pending ≡ s.pending)
        × (p.server.last_handshake_time1 ≡ s.last_handshake_time1)
        × (is_peer_allowed config peer ≡ false
            → p ≡ record { reply = forbidden; delivered = none; server = s })
        × (is_peer_allowed config peer ≡ true → p.reply ≡ received)
        × ((session : LanSession) (e decoded raw : List ℕ)
            → is_peer_allowed config peer ≡ true
            → enc ≡ some e
            → s.session ≡ some session
            → prim.b64decode e ≡ ok decoded
            → prim.cbc_decrypt session.dev_crypto_key session.dev_iv decoded ≡ ok raw
            → (p.server.session ≡ some (record session { dev_iv = last_block decoded }))
              × (p.server.last_activity ≡ some now))
  unfolding handle_property_push
  handle_property_push_lem peer enc now s =
      let kept = envelope-Keeps enc now s in
      (
        if_rule (λ (p : Pushed D). p.server.seq ≡ s.seq) (not (is_peer_allowed config peer))
            (λ h. refl) (λ h. kept.0),
        if_rule (λ (p : Pushed D). p.server.pending ≡ s.pending) (not (is_peer_allowed config peer))
            (λ h. refl) (λ h. kept.1),
        if_rule (λ (p : Pushed D). p.server.last_handshake_time1 ≡ s.last_handshake_time1)
            (not (is_peer_allowed config peer)) (λ h. refl) (λ h. kept.2),
        λ h. rw h refl,
        λ h. rw h (kept.3),
        λ session e decoded raw allowed is live base plain.
            let whole =
              ap (λ (x : Option (List ℕ)). handle_property_push D prim json config peer x now s) is
              ∙ let_in session e decoded raw peer now s allowed live base plain in
            (ap (λ p. p.server.session) whole, ap (λ p. p.server.last_activity) whole),
      )
