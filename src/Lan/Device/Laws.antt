-- ===== src/Lan/Device/Laws.antt =====
-- Commands and datapoints arrive whole, in order, and for as long as the session lasts.
use delonghi_ha.Prelude.{
  ℕ, zero, suc, ◌+◌, List, [], ◌∷◌, Bool, true, String, Option, some, ◌≡◌, refl, sym, ap, ap₂, ◌∙◌,
  length, drop,
}
use mathlib.Core.Path.{subst}
use delonghi_ha.Prelude.Int.{ℤ}
use delonghi_ha.Prelude.Raise.{ok}
use delonghi_ha.Lan.Crypto.{
  Primitives, LanSession, aes_encrypt, aes_decrypt, rotate_iv, derive_session, rstrip, sign_payload,
  verify_signature, encrypt_app_to_device,
}
use delonghi_ha.Lan.Crypto.Laws.{
  IsSound, EndsNonzero, Delivery, sent, IsSession, derive_session-IsSession,
  verify_signature-sign_payload,
}
use delonghi_ha.Lan.Server.{LanServerConfig, LanServer, is_peer_allowed}
use delonghi_ha.Lan.Server.Handshake.{HandshakeRequest, accepted, handle_handshake, KeyExchange}
use delonghi_ha.Lan.Server.Handshake.Laws.{Handled, handle_handshake_lem}
use delonghi_ha.Lan.Server.Traffic.{
  Json, PollReply, served, first, others, reply_poll, poll_session, handle_command_poll,
}
use delonghi_ha.Lan.Device.{read_command, read_commands, polls}

drop-others : {D : Type 0} (n : ℕ) (queue : List D) → drop n (others queue) ≡ drop (suc n) queue
drop-others zero [] = refl
drop-others (suc n) [] = refl
drop-others n (d ∷ rest) = refl

module _ (D : Type 0) (prim : Primitives) (json : Json D) (config : LanServerConfig)
    (sound : IsSound prim) where
  -- The two sides of the direction to the device.
  pub record Agree (dev session : LanSession) : Type 0 where
    pub sign_key : dev.app_sign_key ≡ session.app_sign_key
    pub key : dev.app_crypto_key ≡ session.app_crypto_key
    pub iv : dev.app_iv ≡ session.app_iv

  -- What the device is to read in `n` polls.
  abbrev pub expected : ℕ → ℕ → List D → List (List ℕ × Bool)
  expected zero seq queue = []
  expected (suc n) seq queue =
      (json.dumps (seq + 1) (first queue), true) ∷ expected n (seq + 1) (others queue)

  -- One poll: the device reads the text, and both sides have the same next IV.
  record OnePoll (dev : LanSession) (s : LanServer D) (peer : String) (now : ℕ) : Type 0 where
    dev_after : LanSession
    session_after : LanSession
    agree : Agree dev_after session_after
    session_good : IsSession prim sound session_after
    is_read :
        read_command prim dev (handle_command_poll D prim json config peer now s).0
        ≡ ok ((json.dumps (s.seq + 1) (first s.pending), true), dev_after)
    server_after : (handle_command_poll D prim json config peer now s).1 ≡ record s {
      session = some session_after;
      last_activity = some now;
      pending = others s.pending;
      seq = s.seq + 1;
    }

  read_served :
      (dev : LanSession) (enc sign text iv : List ℕ) (seq : ℕ)
      → aes_decrypt prim enc dev.app_crypto_key dev.app_iv ≡ ok text
      → rotate_iv prim enc ≡ ok iv
      → verify_signature prim dev.app_sign_key text sign ≡ true
      → read_command prim dev (served enc sign seq) ≡ ok ((text, true), record dev { app_iv = iv })
  unfolding read_command
  read_served dev enc sign text iv seq plain rotated right = simp (plain, rotated, right) refl

  encrypts :
      (session : LanSession) (text enc iv : List ℕ)
      → aes_encrypt prim text session.app_crypto_key session.app_iv ≡ ok enc
      → rotate_iv prim enc ≡ ok iv
      → encrypt_app_to_device prim session text
        ≡ ok (enc, sign_payload prim session.app_sign_key text, record session { app_iv = iv })
  unfolding encrypt_app_to_device
  encrypts session text enc iv done rotated = simp (done, rotated) refl

  polled :
      (s : LanServer D) (session after : LanSession) (enc sign : List ℕ) (peer : String) (now : ℕ)
      → s.session ≡ some session
      → is_peer_allowed config peer ≡ true
      → encrypt_app_to_device prim session (json.dumps (s.seq + 1) (first s.pending))
        ≡ ok (enc, sign, after)
      → handle_command_poll D prim json config peer now s ≡ (
        served enc sign (s.seq + 1),
        record s {
          session = some after;
          last_activity = some now;
          pending = others s.pending;
          seq = s.seq + 1;
        },
      )
  unfolding handle_command_poll poll_session reply_poll
  polled s session after enc sign peer now live allowed done = simp (allowed, live, done) refl

  one_poll :
      (dev session : LanSession) (s : LanServer D) (peer : String) (now : ℕ)
      → s.session ≡ some session
      → Agree dev session
      → IsSession prim sound session
      → is_peer_allowed config peer ≡ true
      → EndsNonzero (json.dumps (s.seq + 1) (first s.pending))
      → OnePoll dev s peer now
  one_poll dev session s peer now live agree good allowed ends = record {
    dev_after = record dev { app_iv = message.next_iv };
    session_after = record session { app_iv = message.next_iv };
    agree = record { sign_key = agree.sign_key; key = agree.key; iv = refl };
    session_good = record {
      app_key = good.app_key;
      app_iv = message.next_length;
      dev_key = good.dev_key;
      dev_iv = good.dev_iv;
    };
    is_read =
        ap (λ o. read_command prim dev o.0) whole
        ∙ read_served dev message.enc _ text message.next_iv (s.seq + 1)
            (ap₂ (aes_decrypt prim message.enc) agree.key agree.iv ∙ message.decrypted)
            message.rotated
            (ap (λ k. verify_signature prim k text (sign_payload prim session.app_sign_key text))
                agree.sign_key
              ∙ verify_signature-sign_payload prim sound session.app_sign_key text);
    server_after = ap (λ o. o.1) whole;
  }
    where
      text : List ℕ
      text = json.dumps (s.seq + 1) (first s.pending)

      message : Delivery prim sound session.app_crypto_key session.app_iv text
      message =
          sent prim sound session.app_crypto_key session.app_iv text good.app_key good.app_iv ends

      whole : handle_command_poll D prim json config peer now s ≡ (
        served message.enc (sign_payload prim session.app_sign_key text) (s.seq + 1),
        record s {
          session = some (record session { app_iv = message.next_iv });
          last_activity = some now;
          pending = others s.pending;
          seq = s.seq + 1;
        },
      )
      whole =
          polled s session (record session { app_iv = message.next_iv }) message.enc _ peer now live
            allowed
            (encrypts session text message.enc message.next_iv message.encrypted message.rotated)

  read_step :
      (dev after : LanSession) (r : PollReply) (rest : List PollReply) (command : List ℕ × Bool)
      (commands : List (List ℕ × Bool))
      → read_command prim dev r ≡ ok (command, after)
      → read_commands prim after rest ≡ ok commands
      → read_commands prim dev (r ∷ rest) ≡ ok (command ∷ commands)
  unfolding read_commands
  read_step dev after r rest command commands one more = simp (one, more) refl

  polls_read :
      (peer : String) (times : List ℕ) (dev session : LanSession) (s : LanServer D)
      → is_peer_allowed config peer ≡ true
      → ((seq : ℕ) (d : Option D) → EndsNonzero (json.dumps seq d))
      → s.session ≡ some session
      → Agree dev session
      → IsSession prim sound session
      → (read_commands prim dev (polls D prim json config peer times s).0
          ≡ ok (expected (length times) s.seq s.pending))
        × ((polls D prim json config peer times s).1.pending ≡ drop (length times) s.pending)
  unfolding polls
  polls_read peer [] dev session s allowed ends live agree good =
      (unfold read_commands in refl, refl)
  polls_read peer (now ∷ rest) dev session s allowed ends live agree good =
      let one = one_poll dev session s peer now live agree good allowed (ends _ _) in
      let t = (handle_command_poll D prim json config peer now s).1 in
      let e = one.server_after in
      let more =
        polls_read peer rest one.dev_after one.session_after t allowed ends (ap (λ u. u.session) e)
          one.agree one.session_good in
      (
        read_step dev one.dev_after _ _ _ _ one.is_read (
            more.0
            ∙ ap₂ (λ seq queue. ok (expected (length rest) seq queue)) (ap (λ u. u.seq) e)
                (ap (λ u. u.pending) e)),
        more.1 ∙ ap (λ u. drop (length rest) u.pending) e ∙ drop-others (length rest) s.pending,
      )

  -- A device that derives its session from its own handshake and the reply reads, in any number of
  -- polls, every command that was queued, in order, each with a right signature and the sequence numbers
  -- 1, 2, 3 and so on, and then heartbeats; as many polls as there are commands leave none queued.
  -- This holds if the primitives are sound, JSON texts do not end in a zero byte, and the peer is allowed.
  pub polls-handshake :
      (r : HandshakeRequest) (s t : LanServer D) (random_2 : List ℕ) (time_2 : ℤ)
      (body : KeyExchange) (dev : LanSession) (peer : String) (times : List ℕ)
      → ((seq : ℕ) (d : Option D) → EndsNonzero (json.dumps seq d))
      → handle_handshake D prim config r s ≡ (accepted random_2 time_2, t)
      → r.body ≡ some body
      → derive_session prim config.lan_key (rstrip 0x3D body.random_1) random_2 body.time_1 time_2
        ≡ some dev
      → is_peer_allowed config peer ≡ true
      → (read_commands prim dev (polls D prim json config peer times t).0
          ≡ ok (expected (length times) 0 s.pending))
        × ((polls D prim json config peer times t).1.pending ≡ drop (length times) s.pending)
  polls-handshake r s t random_2 time_2 body dev peer times ends done read derived allowed =
      let h = subst (Handled D prim config r s) done (handle_handshake_lem D prim config r s) in
      let same : body ≡ h.body = cc (read, h.read) in
      let mine : some h.session ≡ some dev =
        sym h.derived
        ∙ ap
            (λ (b : KeyExchange).
              derive_session prim config.lan_key (rstrip 0x3D b.random_1) random_2 b.time_1 time_2)
            (sym same)
        ∙ derived in
      let dev_same : dev ≡ h.session = cc mine in
      let e = h.stored in
      let base =
        polls_read peer times dev h.session t allowed ends (ap (λ u. u.session) e)
          (record {
            sign_key = ap (λ d. d.app_sign_key) dev_same;
            key = ap (λ d. d.app_crypto_key) dev_same;
            iv = ap (λ d. d.app_iv) dev_same;
          })
          (derive_session-IsSession prim sound config.lan_key _ random_2 _ time_2 h.session
            h.derived) in
      (
        base.0
            ∙ ap₂ (λ seq queue. ok (expected (length times) seq queue)) (ap (λ u. u.seq) e)
                (ap (λ u. u.pending) e),
        base.1 ∙ ap (λ u. drop (length times) u.pending) e,
      )
