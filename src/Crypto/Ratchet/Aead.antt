-- ===== src/Crypto/Ratchet/Aead.antt =====
-- core/pkg/crypto/ratchet.go: AES-GCM under keys derived from a message key.
use stunner.Base.{
  ◌≡◌, none, Bool, ◌||◌, [], arith, ◌==◌, length, take, drop, length-take, length-drop,
}
use stunner.Base.Bytes.{Bytes, codes}
use stunner.Base.Result.{
  Result, ok, err, ◌>>=◌, ◌>>◌, check, or_err, bad_cipher_key, bad_ciphertext,
}
use stunner.Crypto.Primitives.{Primitives}
use stunner.Crypto.Kdf.{hkdf, length-hkdf}

-- aes.NewCipher takes keys of 16, 24 and 32 bytes.
unfoldable pub is_cipher_key : Bytes → Bool
is_cipher_key key = length key == 16 || (length key == 24 || length key == 32)

module _ (p : Primitives) where
  open p use {seal, unseal, unseal-seal}

  -- The AES key and the nonce.
  unfoldable pub message_keys : Bytes → Bytes × Bytes
  message_keys mk = let km = hkdf p [] mk (codes "stunner-msg") 44 in (take 32 km, drop 32 km)

  -- msgGCM, which fails only in aes.NewCipher
  unfoldable pub msg_gcm : Bytes → Result (Bytes × Bytes)
  unfolding is_cipher_key
  msg_gcm mk = do check (is_cipher_key (message_keys mk).0) bad_cipher_key; ok (message_keys mk)

  unfoldable pub aead_seal : Bytes → Bytes → Bytes → Result Bytes
  aead_seal mk plaintext ad = do k ← msg_gcm mk; ok (seal k.0 k.1 plaintext ad)

  unfoldable pub aead_open : Bytes → Bytes → Bytes → Result Bytes
  aead_open mk ct ad = do k ← msg_gcm mk; or_err (unseal k.0 k.1 ct ad) bad_ciphertext

  -- What `aead_seal` returns.
  unfoldable pub sealed : Bytes → Bytes → Bytes → Bytes
  sealed mk plaintext ad = seal (message_keys mk).0 (message_keys mk).1 plaintext ad

  message_keys_lengths :
      (mk : Bytes) → (length (message_keys mk).0 ≡ 32) × (length (message_keys mk).1 ≡ 12)
  unfolding message_keys
  message_keys_lengths mk =
      let km = hkdf p [] mk (codes "stunner-msg") 44 in
      omega
        (arith, length-take 32 km, length-drop 32 km, length-hkdf p [] mk (codes "stunner-msg") 44)

  msg_gcm_lem : (mk : Bytes) → msg_gcm mk ≡ ok (message_keys mk)
  unfolding msg_gcm
  msg_gcm_lem mk = ground (arith, message_keys_lengths mk)

  -- Sealing never fails.
  pub aead_seal_ok :
      (mk plaintext ad : Bytes) → aead_seal mk plaintext ad ≡ ok (sealed mk plaintext ad)
  unfolding aead_seal sealed
  aead_seal_ok mk plaintext ad = rw (msg_gcm_lem mk)

  pub aead_open-sealed :
      (mk plaintext ad : Bytes) → aead_open mk (sealed mk plaintext ad) ad ≡ ok plaintext
  unfolding aead_open sealed
  aead_open-sealed mk plaintext ad =
      let (k, n) = message_keys_lengths mk in rw (msg_gcm_lem mk, unseal-seal _ _ plaintext ad k n)

  pub aead_open-none :
      (mk ct ad : Bytes)
      → unseal (message_keys mk).0 (message_keys mk).1 ct ad ≡ none
      → aead_open mk ct ad ≡ err bad_ciphertext
  unfolding aead_open
  aead_open-none mk ct ad h = rw (msg_gcm_lem mk, h)
