-- ===== src/Lan/Crypto/Laws.antt =====
-- Padding, and messages that arrive as they were sent, with the same next IV on both sides.
use delonghi_ha.Prelude.{
  ℕ, zero, suc, ◌+◌, ◌-◌, ◌%◌, ◌≤◌, ◌<◌, List, [], ◌∷◌, ◌++◌, true, some, ◌≡◌, ◌≢◌, refl, ap, ◌∙◌,
  arith, length, take, replicate, length-append, length-replicate, length-drop, length-take,
  ==_refl,
}
use mathlib.Core.Path.{subst}
use delonghi_ha.Prelude.Int.{ℤ}
use delonghi_ha.Prelude.Raise.{ok}
use delonghi_ha.Lan.Crypto.{
  Primitives, rstrip, pad_zero, unpad_zero, last_block, LanSession, aes_encrypt, aes_decrypt,
  rotate_iv, derive, keys, derive_session, sign_payload, same_bytes, compare_digest,
  verify_signature,
}

-- The documented behaviour of the primitives: digests of 32 bytes, AES-256 on whole blocks that
-- decrypts what it encrypted, block for block, and base64.
pub record IsSound (prim : Primitives) : Type 0 where
  pub digest : (key text : List ℕ) → length (prim.hmac_sha256 key text) ≡ 32
  pub cbc :
      (key iv raw : List ℕ)
      → length key ≡ 32
      → length iv ≡ 16
      → length raw % 16 ≡ 0
      → (enc : List ℕ) × (prim.cbc_encrypt key iv raw ≡ ok enc)
        × (prim.cbc_decrypt key iv enc ≡ ok raw)
        × (length enc ≡ length raw)
  pub base64 : (xs : List ℕ) → prim.b64decode (prim.b64encode xs) ≡ ok xs

-- The last byte, if there is one, is not 0.
abbrev pub EndsNonzero : List ℕ → Type 0
EndsNonzero [] = Unit
EndsNonzero (x ∷ []) = x ≢ 0
EndsNonzero (x ∷ y ∷ ys) = EndsNonzero (y ∷ ys)

rstrip-replicate : (n b : ℕ) → rstrip b (replicate n b) ≡ []
unfolding rstrip
rstrip-replicate zero b = refl
rstrip-replicate (suc n) b = rw (rstrip-replicate n b) (ground arith)

rstrip-append : (b n : ℕ) (xs : List ℕ) → rstrip b (xs ++ replicate n b) ≡ rstrip b xs
unfolding rstrip
rstrip-append b n [] = rstrip-replicate n b
rstrip-append b n (x ∷ xs) = rw (rstrip-append b n xs) refl

rstrip_whole : (xs : List ℕ) → EndsNonzero xs → rstrip 0 xs ≡ xs
unfolding rstrip
rstrip_whole [] h = refl
rstrip_whole (x ∷ []) h = ground arith
rstrip_whole (x ∷ y ∷ ys) h = rw (rstrip_whole (y ∷ ys) h) refl

pub length-pad_zero : (xs : List ℕ) → length (pad_zero xs) ≡ length xs + (16 - length xs % 16)
unfolding pad_zero
length-pad_zero xs =
    length-append xs (replicate (16 - length xs % 16) 0)
    ∙ ap (λ n. length xs + n) (length-replicate (16 - length xs % 16) 0)

-- Padding gives whole blocks, at most one more than needed and never none more, and stripping it gives
-- the text back if that does not end in a zero byte; if it does, the zero bytes at its end are lost.
pub unpad_zero-pad_zero :
    (xs : List ℕ)
    → (length (pad_zero xs) % 16 ≡ 0)
      × (length xs < length (pad_zero xs))
      × (length (pad_zero xs) ≤ length xs + 16)
      × (EndsNonzero xs → unpad_zero (pad_zero xs) ≡ xs)
      × ((ys : List ℕ) (n : ℕ)
          → EndsNonzero ys
          → xs ≡ ys ++ replicate n 0
          → unpad_zero (pad_zero xs) ≡ ys)
unpad_zero-pad_zero xs =
    let size = length-pad_zero xs in
    (
      omega arith,
      omega arith,
      omega arith,
      λ h. stripped xs ∙ rstrip_whole xs h,
      λ ys n h e. stripped xs ∙ ap (rstrip 0) e ∙ rstrip-append 0 n ys ∙ rstrip_whole ys h,
    )
  where
    stripped : (zs : List ℕ) → unpad_zero (pad_zero zs) ≡ rstrip 0 zs
    stripped zs = unfold pad_zero in rstrip-append 0 (16 - length zs % 16) zs

length-last_block : (xs : List ℕ) → 16 ≤ length xs → length (last_block xs) ≡ 16
unfolding last_block
length-last_block xs h = omega (arith, length-drop (length xs - 16) xs)

module _ (prim : Primitives) (sound : IsSound prim) where
  -- A text that was encrypted: what is sent, what the other side reads, and the IV that both sides
  -- have next.
  pub record Delivery (key iv message : List ℕ) : Type 0 where
    pub enc : List ℕ
    pub encrypted : aes_encrypt prim message key iv ≡ ok enc
    pub decrypted : aes_decrypt prim enc key iv ≡ ok message
    pub next_iv : List ℕ
    pub rotated : rotate_iv prim enc ≡ ok next_iv
    pub next_length : length next_iv ≡ 16

  pub sent :
      (key iv message : List ℕ)
      → length key ≡ 32
      → length iv ≡ 16
      → EndsNonzero message
      → Delivery key iv message
  unfolding aes_encrypt aes_decrypt rotate_iv
  sent key iv message k i ends =
      let padded = unpad_zero-pad_zero message in
      let (enc, done, back, size) = sound.cbc key iv (pad_zero message) k i padded.0 in
      record {
        enc = prim.b64encode enc;
        encrypted = rw done refl;
        decrypted = rw (sound.base64 enc, back) (ap ok (padded.3 ends));
        next_iv = last_block enc;
        rotated = rw (sound.base64 enc) refl;
        next_length = length-last_block enc (omega (arith, size, padded.0, padded.1));
      }

  -- Keys of 32 bytes and IVs of 16.
  pub record IsSession (s : LanSession) : Type 0 where
    pub app_key : length s.app_crypto_key ≡ 32
    pub app_iv : length s.app_iv ≡ 16
    pub dev_key : length s.dev_crypto_key ≡ 32
    pub dev_iv : length s.dev_iv ≡ 16

  derive-length : (key parts : List ℕ) → length (derive prim key parts) ≡ 32
  unfolding derive
  derive-length key parts = sound.digest key _

  derive_iv-length : (key parts : List ℕ) → length (take 16 (derive prim key parts)) ≡ 16
  derive_iv-length key parts =
      omega (arith, length-take 16 (derive prim key parts), derive-length key parts)

  keys-IsSession : (lan_key r1 r2 : List ℕ) (t1 t2 : ℤ) → IsSession (keys prim lan_key r1 r2 t1 t2)
  unfolding keys
  keys-IsSession lan_key r1 r2 t1 t2 = record {
    app_key = derive-length lan_key _;
    app_iv = derive_iv-length lan_key _;
    dev_key = derive-length lan_key _;
    dev_iv = derive_iv-length lan_key _;
  }

  -- Whatever is derived has keys and IVs of the right lengths.
  pub derive_session-IsSession :
      (lan_key r1 r2 : List ℕ) (t1 t2 : ℤ) (s : LanSession)
      → derive_session prim lan_key r1 r2 t1 t2 ≡ some s
      → IsSession s
  unfolding derive_session
  derive_session-IsSession [] r1 r2 t1 t2 s e = cc
  derive_session-IsSession (k ∷ ks) [] r2 t1 t2 s e = cc
  derive_session-IsSession (k ∷ ks) (a ∷ as1) [] t1 t2 s e = cc
  derive_session-IsSession (k ∷ ks) (a ∷ as1) (b ∷ bs) t1 t2 s e =
      let same : keys prim (k ∷ ks) (a ∷ as1) (b ∷ bs) t1 t2 ≡ s = cc in
      subst IsSession same (keys-IsSession (k ∷ ks) (a ∷ as1) (b ∷ bs) t1 t2)

  same_bytes_refl : (xs : List ℕ) → same_bytes prim xs xs ≡ true
  same_bytes_refl [] = refl
  same_bytes_refl (x ∷ xs) = rw (==_refl x, same_bytes_refl xs) refl

  -- A signature made with a key is verified with it.
  pub verify_signature-sign_payload :
      (key payload : List ℕ)
      → verify_signature prim key payload (sign_payload prim key payload) ≡ true
  unfolding verify_signature sign_payload compare_digest
  verify_signature-sign_payload key payload =
      rw (sound.base64 (prim.hmac_sha256 key payload))
        (same_bytes_refl (prim.hmac_sha256 key payload))
