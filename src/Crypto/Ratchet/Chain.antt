-- ===== src/Crypto/Ratchet/Chain.antt =====
-- One sending chain of the ratchet, seen from outside: the keys at each counter, and the wire
-- message with counter `i`.
use native.Mathlib.Omega.{arith}
use stunner.Base.{ℕ, zero, suc, ◌+◌, ◌^◌, ◌<◌, ◌≡◌, refl, some, [], ◌∷◌, ◌++◌}
use stunner.Base.Bytes.{Bytes}
use stunner.Base.Method.{done}
use stunner.Crypto.Primitives.{Primitives, Codec}
use stunner.Crypto.Kdf.{hmac_sha256}
use stunner.Crypto.Ratchet.Aead.{sealed, aead_seal_ok}
use stunner.Crypto.Ratchet.{
  Ratchet, Header, WireMessage, header_bytes, chain_step, encode_message, encrypt, next_header,
  advance_sending,
}

-- What all the messages of one sending chain share: the ratchet key, the length of the chain
-- before it, the associated data, and the chain key at counter 0.
pub record Chain : Type 0 where
  pub dh : Bytes
  pub pn : ℕ
  pub ad : Bytes
  pub start : Bytes

module _ (p : Primitives) (ch : Chain) where
  unfoldable pub chain_key : ℕ → Bytes
  chain_key zero = ch.start
  chain_key (suc i) = hmac_sha256 p (chain_key i) (2 ∷ [])

  unfoldable pub message_key : ℕ → Bytes
  message_key i = hmac_sha256 p (chain_key i) (1 ∷ [])

  unfoldable pub header_at : ℕ → Header
  header_at i = record { dh = some ch.dh; pn = ch.pn; n = i }

  unfoldable pub ciphertext_at : ℕ → Bytes → Bytes
  ciphertext_at i plaintext =
      sealed p (message_key i) plaintext (ch.ad ++ header_bytes (header_at i))

  pub chain_step-chain_key :
      (i : ℕ) → chain_step p (some (chain_key i)) ≡ (message_key i, chain_key (suc i))
  unfolding chain_step message_key chain_key
  chain_step-chain_key i = refl

  -- `s` sends on this chain, and its next message has counter `i`.
  pub record Sends (i : ℕ) (s : Ratchet) : Type 0 where
    pub key : s.cks ≡ some (chain_key i)
    pub count : s.ns ≡ i
    pub public : p.public s.dhs ≡ ch.dh
    pub previous : s.pn ≡ ch.pn
    pub data_bound : s.ad ≡ ch.ad

module _ (p : Primitives) (c : Codec WireMessage) (ch : Chain) where
  -- The wire message with counter `i`.
  unfoldable pub message_at : ℕ → Bytes → Bytes
  message_at i plaintext = encode_message c (header_at p ch i) (ciphertext_at p ch i plaintext)

  next_header-Sends : (i : ℕ) (s : Ratchet) → Sends p ch i s → next_header p c s ≡ header_at p ch i
  unfolding next_header header_at
  next_header-Sends i s v = ground arith

  -- `encrypt` writes the message of its counter, and never fails.
  pub encrypt-Sends :
      (i : ℕ) (s : Ratchet) (plaintext : Bytes)
      → Sends p ch i s
      → encrypt p c plaintext s ≡ done (message_at i plaintext) (advance_sending p c s)
  unfolding encrypt message_at ciphertext_at
  encrypt-Sends i s plaintext v =
      rw (next_header-Sends i s v, v.key, v.data_bound, chain_step-chain_key p ch i, aead_seal_ok)

  pub advance-Sends :
      (i : ℕ) (s : Ratchet)
      → i + 1 < 2 ^ 32
      → Sends p ch i s
      → Sends p ch (suc i) (advance_sending p c s)
  unfolding advance_sending
  advance-Sends i s h v = record {
    key = rw (v.key, chain_step-chain_key p ch i);
    count = ground arith;
    public = v.public;
    previous = v.previous;
    data_bound = v.data_bound;
  }
