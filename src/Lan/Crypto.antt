-- ===== src/Lan/Crypto.antt =====
-- Padding, session keys, signatures and the two directions of encryption
-- (custom_components/delonghi_coffee/lan.py). Texts are their UTF-8 bytes.
pub mod Decimal
pub mod Laws
use delonghi_ha.Prelude.{
  ℕ, ◌+◌, ◌-◌, ◌%◌, List, [], ◌∷◌, ◌++◌, Bool, true, false, ◌==◌, Option, none, some, length, take,
  drop, replicate, if◌then◌else◌,
}
use delonghi_ha.Prelude.Int.{ℤ}
use delonghi_ha.Prelude.Raise.{Result, ok, raise, ◌>>=◌}
use delonghi_ha.Lan.Crypto.Decimal.{show_int}

-- What the source calls: HMAC-SHA256, AES-CBC on whole blocks, and base64.
pub record Primitives : Type 0 where
  pub hmac_sha256 : List ℕ → List ℕ → List ℕ
  pub cbc_encrypt : List ℕ → List ℕ → List ℕ → Result (List ℕ)
  pub cbc_decrypt : List ℕ → List ℕ → List ℕ → Result (List ℕ)
  pub b64encode : List ℕ → List ℕ
  pub b64decode : List ℕ → Result (List ℕ)

-- `data.rstrip(b)` for one byte.
unfoldable pub rstrip : ℕ → List ℕ → List ℕ
rstrip b [] = []
rstrip b (x ∷ xs) =
    let rest = rstrip b xs in elim rest [ [] ↦ if x == b then [] else x ∷ [] | y ∷ ys ↦ x ∷ y ∷ ys ]

unfoldable pub pad_zero : List ℕ → List ℕ
pad_zero xs = xs ++ replicate (16 - length xs % 16) 0

abbrev pub unpad_zero : List ℕ → List ℕ
unpad_zero xs = rstrip 0 xs

-- `raw[-16:]`
unfoldable pub last_block : List ℕ → List ℕ
last_block raw = drop (length raw - 16) raw

-- `created_at` is never read.
pub record LanSession : Type 0 where
  pub app_sign_key : List ℕ
  pub app_crypto_key : List ℕ
  pub app_iv : List ℕ
  pub dev_crypto_key : List ℕ
  pub dev_iv : List ℕ
  pub random_1 : List ℕ
  pub random_2 : List ℕ
  pub time_1 : ℤ
  pub time_2 : ℤ

module _ (prim : Primitives) where
  unfoldable pub aes_encrypt : List ℕ → List ℕ → List ℕ → Result (List ℕ)
  aes_encrypt message key iv =
      prim.cbc_encrypt key iv (pad_zero message) >>= λ enc. ok (prim.b64encode enc)

  unfoldable pub aes_decrypt : List ℕ → List ℕ → List ℕ → Result (List ℕ)
  aes_decrypt enc key iv = do
    decoded ← prim.b64decode enc
    raw ← prim.cbc_decrypt key iv decoded
    ok (unpad_zero raw)

  unfoldable pub rotate_iv : List ℕ → Result (List ℕ)
  rotate_iv enc = prim.b64decode enc >>= λ raw. ok (last_block raw)

  -- `_derive`
  unfoldable pub derive : List ℕ → List ℕ → List ℕ
  derive key parts = prim.hmac_sha256 key (prim.hmac_sha256 key parts ++ parts)

  -- The nonces, in the order of a direction, and the tag of a role.
  unfoldable pub nonces : List ℕ → List ℕ → ℤ → ℤ → ℕ → List ℕ
  nonces r1 r2 t1 t2 tag = r1 ++ (r2 ++ (show_int t1 ++ (show_int t2 ++ (tag ∷ []))))

  unfoldable pub keys : List ℕ → List ℕ → List ℕ → ℤ → ℤ → LanSession
  keys lan_key r1 r2 t1 t2 = record {
    app_sign_key = derive lan_key (nonces r1 r2 t1 t2 0x30);
    app_crypto_key = derive lan_key (nonces r1 r2 t1 t2 0x31);
    app_iv = take 16 (derive lan_key (nonces r1 r2 t1 t2 0x32));
    dev_crypto_key = derive lan_key (nonces r2 r1 t2 t1 0x31);
    dev_iv = take 16 (derive lan_key (nonces r2 r1 t2 t1 0x32));
    random_1 = r1;
    random_2 = r2;
    time_1 = t1;
    time_2 = t2;
  }

  -- `none` is LanCryptoError.
  unfoldable pub derive_session : List ℕ → List ℕ → List ℕ → ℤ → ℤ → Option LanSession
  derive_session [] r1 r2 t1 t2 = none
  derive_session (k ∷ ks) [] r2 t1 t2 = none
  derive_session (k ∷ ks) (a ∷ as1) [] t1 t2 = none
  derive_session (k ∷ ks) (a ∷ as1) (b ∷ bs) t1 t2 = some (keys (k ∷ ks) (a ∷ as1) (b ∷ bs) t1 t2)

  unfoldable pub sign_payload : List ℕ → List ℕ → List ℕ
  sign_payload key payload = prim.b64encode (prim.hmac_sha256 key payload)

  abbrev pub same_bytes : List ℕ → List ℕ → Bool
  same_bytes [] [] = true
  same_bytes [] (y ∷ ys) = false
  same_bytes (x ∷ xs) [] = false
  same_bytes (x ∷ xs) (y ∷ ys) = if x == y then same_bytes xs ys else false

  -- With what the decoding of the signature gives.
  unfoldable pub compare_digest : List ℕ → Result (List ℕ) → Bool
  compare_digest expected (ok provided) = same_bytes expected provided
  compare_digest expected (raise e) = false

  unfoldable pub verify_signature : List ℕ → List ℕ → List ℕ → Bool
  verify_signature key payload signature =
      compare_digest (prim.hmac_sha256 key payload) (prim.b64decode signature)

  -- The text, its signature, and the session after it.
  unfoldable pub encrypt_app_to_device : LanSession → List ℕ → Result (List ℕ × List ℕ × LanSession)
  encrypt_app_to_device s payload = do
    enc ← aes_encrypt payload s.app_crypto_key s.app_iv
    iv ← rotate_iv enc
    ok (enc, sign_payload s.app_sign_key payload, record s { app_iv = iv })

  unfoldable pub decrypt_device_to_app : LanSession → List ℕ → Result (List ℕ × LanSession)
  decrypt_device_to_app s enc = do
    plaintext ← aes_decrypt enc s.dev_crypto_key s.dev_iv
    iv ← rotate_iv enc
    ok (plaintext, record s { dev_iv = iv })
