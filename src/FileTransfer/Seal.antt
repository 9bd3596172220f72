-- ===== src/FileTransfer/Seal.antt =====
-- core/pkg/crypto/crypto.go: AES-256-GCM for one file chunk, with no additional data.
use stunner.Base.{◌≡◌, [], ◌==◌, length}
use stunner.Base.Bytes.{Bytes}
use stunner.Base.Result.{
  Result, ok, ◌>>◌, check, or_err, bad_transfer_key, bad_nonce_size, bad_ciphertext,
}
use stunner.Crypto.Primitives.{Primitives}

-- fileGCM. A key of 32 bytes is one that aes.NewCipher takes.
unfoldable pub file_gcm : Bytes → Result (Unit {0})
file_gcm key = check (length key == 32) bad_transfer_key

module _ (p : Primitives) where
  unfoldable pub seal_file : Bytes → Bytes → Bytes → Result Bytes
  seal_file key nonce plaintext = do
    file_gcm key
    check (length nonce == 12) bad_nonce_size
    ok (p.seal key nonce plaintext [])

  pub open_file : Bytes → Bytes → Bytes → Result Bytes
  open_file key nonce ciphertext = do
    file_gcm key
    check (length nonce == 12) bad_nonce_size
    or_err (p.unseal key nonce ciphertext []) bad_ciphertext

  pub seal_file_ok :
      (key nonce plaintext : Bytes)
      → length key ≡ 32
      → length nonce ≡ 12
      → seal_file key nonce plaintext ≡ ok (p.seal key nonce plaintext [])
  unfolding seal_file file_gcm
  seal_file_ok key nonce plaintext n m = rw (n, m)

  pub open_file-seal :
      (key nonce plaintext : Bytes)
      → length key ≡ 32
      → length nonce ≡ 12
      → open_file key nonce (p.seal key nonce plaintext []) ≡ ok plaintext
  unfolding open_file file_gcm
  open_file-seal key nonce plaintext n m = rw (n, m, p.unseal-seal key nonce plaintext [] n m)
