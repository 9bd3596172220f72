-- ===== src/Crypto/Ratchet/Faults.antt =====
-- Two behaviours of the ratchet that its users have to know of: a message that does not
-- authenticate uses up a key, and a responder that sends first uses a key that is no secret.
use stunner.Base.{
  ℕ, suc, ◌+◌, ◌-◌, ◌^◌, ◌<◌, ◌≤◌, ◌≡◌, refl, ap, ◌∙◌, Bool, false, none, some, [], ◌∷◌, ◌++◌,
  arith,
}
use stunner.Base.Bytes.{Bytes}
use stunner.Base.Eq.{bytes_eq_refl, bytes_eq_instance}
use stunner.Base.Dict.{lookup}
use stunner.Base.Result.{Error, Result, ok, err}
use stunner.Base.Method.{done, failed, result_of}
use stunner.Crypto.Primitives.{Primitives, Codec}
use stunner.Crypto.Kdf.{hmac_sha256}
use stunner.Crypto.Ratchet.Aead.{aead_open, sealed, aead_seal_ok}
use stunner.Crypto.Ratchet.Chain.{
  Chain, message_key, header_at, ciphertext_at, message_at, chain_step-chain_key,
}
use stunner.Crypto.Ratchet.Delivery.{Receives, follow_ratchet-Receives, decrypt_unskipped}
use stunner.Crypto.Ratchet.{
  Ratchet, Header, WireMessage, follow_ratchet, is_new_dh, header_bytes, skipped_key,
  encode_message, new_ratchet_responder, encrypt, next_header, chain_step, skip, skip_loop,
  open_next, advance_receiving, decrypt,
}

-- The first header of a responder.
abbrev pub first_reply_header : Primitives → Bytes → Header
first_reply_header p signed_pre = record { dh = some (p.public signed_pre); pn = 0; n = 0 }

-- A responder that encrypts before it has received anything seals under the message key that comes
-- from the empty chain key; the shared secret `sk` has no part in the message that goes out.
pub encrypt_first_reply :
    (p : Primitives) (c : Codec WireMessage) (sk signed_pre ad plaintext : Bytes)
    → result_of (encrypt p c plaintext (new_ratchet_responder p sk signed_pre ad))
      ≡ ok (
          encode_message c (first_reply_header p signed_pre) (
            sealed p
              (hmac_sha256 p [] (1 ∷ []))
              plaintext
              (ad ++ header_bytes (first_reply_header p signed_pre))))
unfolding encrypt new_ratchet_responder chain_step next_header
encrypt_first_reply p c sk signed_pre ad plaintext = rw aead_seal_ok

module _ (p : Primitives) (ch : Chain) where
  -- `skip` does nothing where the chain stands at the counter or beyond it.
  skip_back :
      (r : Ratchet) (i : ℕ) {ck : Bytes}
      → i ≤ r.nr
      → r.nr + 1000 < 2 ^ 32
      → r.ckr ≡ some ck
      → skip p i r ≡ done tt r
  unfolding skip skip_loop
  skip_back r i le room e =
      let skips : skip p i r ≡ done tt (skip_loop p (i - r.nr) r) = rw (e, skip) (ground arith) in
      let none_left : i - r.nr ≡ 0 = omega arith in
      skips ∙ ap (λ k. done tt (skip_loop p k r)) none_left

module _ (p : Primitives) (c : Codec WireMessage) where
  open_next_result :
      (h : Header) (ct : Bytes) (r : Ratchet)
      → result_of (open_next p c h ct r)
        ≡ aead_open p (chain_step p r.ckr).0 ct (r.ad ++ header_bytes h)
  unfolding open_next
  open_next_result h ct r = ground arith

  open_next_fails :
      (h : Header) (ct : Bytes) (r : Ratchet) (e : Error)
      → aead_open p (chain_step p r.ckr).0 ct (r.ad ++ header_bytes h) ≡ err e
      → open_next p c h ct r ≡ failed e (advance_receiving p c r)
  unfolding open_next
  open_next_fails h ct r e bad = ground arith

-- The receiver is on the chain, 1001 counters short of 2^32, and has not got the message with the
-- next counter. A message that carries this counter but does not authenticate is refused, and yet
-- uses the counter's key up. The genuine message with that counter, whatever its text, is
-- afterwards opened with the key of the counter behind it: `decrypt` returns what AES-GCM answers
-- under that key.
pub decrypt_forged :
    (p : Primitives) (c : Codec WireMessage) (ch : Chain) (fresh : Result Bytes) (got : ℕ → Bool)
    (r : Ratchet) (forged : Bytes) (e : Error)
    → r.nr + 1001 < 2 ^ 32
    → got r.nr ≡ false
    → Receives p ch got r
    → aead_open p (message_key p ch r.nr) forged (ch.ad ++ header_bytes (header_at p ch r.nr))
      ≡ err e
    → (s : Ratchet) × (decrypt p c fresh (encode_message c (header_at p ch r.nr) forged) r
        ≡ failed e s)
      × ((m : Bytes)
          → result_of (decrypt p c fresh (message_at p c ch r.nr m) s)
            ≡ aead_open p
                (message_key p ch (r.nr + 1))
                (ciphertext_at p ch r.nr m)
                (ch.ad ++ header_bytes (header_at p ch r.nr)))
unfolding header_at message_at advance_receiving follow_ratchet is_new_dh
decrypt_forged p c ch fresh got r forged e room new v bad = (
  advance_receiving p c r,
  decrypt_unskipped p c fresh (header_at p ch r.nr) forged r missing
        (follow_ratchet-Receives p c ch fresh got r.nr r v)
        (skip_back p ch r r.nr (omega arith) (omega arith) v.key)
      ∙ open_next_fails p c (header_at p ch r.nr) forged r e
          (rw (v.key, v.data_bound, chain_step-chain_key p ch r.nr) bad),
  λ m.
      ap result_of (
        decrypt_unskipped p c fresh (header_at p ch r.nr) (ciphertext_at p ch r.nr m)
          (advance_receiving p c r) missing (rw v.remote (ground (arith, bytes_eq_refl ch.dh)))
          (skip_back p ch (advance_receiving p c r) r.nr (ground arith) (ground arith) refl))
      ∙ open_next_result p c (header_at p ch r.nr) (ciphertext_at p ch r.nr m)
          (advance_receiving p c r)
      ∙ rw
          (
            v.key,
            v.data_bound,
            chain_step-chain_key p ch r.nr,
            chain_step-chain_key p ch (suc r.nr),
          )
          (ap
            (λ k.
              aead_open p (message_key p ch k) (ciphertext_at p ch r.nr m)
                (ch.ad ++ header_bytes (header_at p ch r.nr)))
            (omega arith)),
)
  where
    missing : lookup (skipped_key ch.dh r.nr) r.skipped ≡ none
    missing = ground (arith, v.pending r.nr (omega arith) new)
