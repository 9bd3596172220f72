-- ===== src/Crypto/Primitives.antt =====
-- What core/pkg/crypto takes from Go's standard library: HMAC-SHA256, SHA-256, X25519, Ed25519 and
-- AES-GCM, as operations with the documented facts that the code relies on. Nothing is assumed of
-- their secrecy. Private keys are their serialized bytes.
use stunner.Base.{◌≡◌, Bool, true, Option, some, length}
use stunner.Base.Bytes.{Bytes, All, IsByte}

pub record Primitives : Type 0 where
  -- hmac.New(sha256.New, key), Write(message), Sum(nil)
  pub hmac : Bytes → Bytes → Bytes
  pub length-hmac : (key message : Bytes) → length (hmac key message) ≡ 32
  -- sha256.Sum256
  pub sha256 : Bytes → Bytes
  pub length-sha256 : (message : Bytes) → length (sha256 message) ≡ 32
  pub bytes-sha256 : (message : Bytes) → All IsByte (sha256 message)
  -- (*ecdh.PrivateKey).PublicKey().Bytes(), for X25519
  pub public : Bytes → Bytes
  pub length-public : (key : Bytes) → length (public key) ≡ 32
  pub bytes-public : (key : Bytes) → All IsByte (public key)
  -- (*ecdh.PrivateKey).ECDH, which fails on a point of low order
  pub ecdh : Bytes → Bytes → Option Bytes
  pub ecdh_comm :
      (a b : Bytes) → length a ≡ 32 → length b ≡ 32 → ecdh a (public b) ≡ ecdh b (public a)
  pub ecdh_public :
      (a b : Bytes) → length a ≡ 32 → length b ≡ 32 → (out : Bytes) × (ecdh a (public b) ≡ some out)
  -- (cipher.AEAD).Seal and Open of AES-GCM: key, nonce, text, additional data
  pub seal : Bytes → Bytes → Bytes → Bytes → Bytes
  pub unseal : Bytes → Bytes → Bytes → Bytes → Option Bytes
  pub unseal-seal :
      (key nonce plaintext ad : Bytes)
      → length key ≡ 32
      → length nonce ≡ 12
      → unseal key nonce (seal key nonce plaintext ad) ad ≡ some plaintext
  -- ed25519: the keys that GenerateKey makes, their public part, Sign and Verify
  pub is_signing_key : Bytes → Bool
  pub sign_public : Bytes → Bytes
  pub length-sign_public : (key : Bytes) → length (sign_public key) ≡ 32
  pub sign : Bytes → Bytes → Bytes
  pub verify : Bytes → Bytes → Bytes → Bool
  pub verify-sign :
      (key message : Bytes)
      → is_signing_key key ≡ true
      → verify (sign_public key) message (sign key message) ≡ true

-- encoding/json on one Go type: what Marshal writes, Unmarshal reads back.
pub record Codec {ℓ} (A : Type ℓ) : Type ℓ where
  pub marshal : A → Bytes
  pub unmarshal : Bytes → Option A
  pub unmarshal-marshal : (a : A) → unmarshal (marshal a) ≡ some a
