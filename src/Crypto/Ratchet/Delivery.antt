-- ===== src/Crypto/Ratchet/Delivery.antt =====
-- The receiving side of one chain: messages may come in any order.
use stunner.Base.{
  ℕ, zero, suc, ◌+◌, ◌-◌, ◌^◌, ◌<◌, ◌≤◌, ◌≡◌, refl, subst, ap, ◌∙◌, Bool, true, false, Option, none,
  some, ◌++◌, arith, ltb, ◌==◌, ==_iff, if◌then◌else◌, inl, inr, Bool-cases,
}
use stunner.Base.Bytes.{Bytes, All, IsByte}
use stunner.Base.Eq.{bytes_eq, bytes_eq_iff, bytes_eq_refl, bytes_eq_instance}
use stunner.Base.Dict.{lookup, remove, lookup-insert, lookup-remove}
use stunner.Base.Result.{Result, ok}
use stunner.Base.Method.{done, ◌>>◌, >>=-done}
use stunner.Crypto.Primitives.{Primitives, Codec}
use stunner.Crypto.Ratchet.Aead.{aead_open, aead_open-sealed}
use stunner.Crypto.Ratchet.Keys.{skipped_key_injective}
use stunner.Crypto.Ratchet.Chain.{
  Chain, chain_key, message_key, header_at, ciphertext_at, chain_step-chain_key, message_at,
}
use stunner.Crypto.Ratchet.{
  slice, Ratchet, Header, WireMessage, header_bytes, skipped_key, is_new_dh, encode_message,
  decode_message, skip_one, skip_loop, skip, try_skipped, after_skipped, follow_ratchet,
  advance_receiving, open_next, decrypt,
}

pub decode-encode :
    (c : Codec WireMessage) (h : Header) (ct : Bytes)
    → decode_message c (encode_message c h ct) ≡ ok (h, ct)
unfolding decode_message encode_message
decode-encode c h ct =
    rw (c.unmarshal-marshal (record { dh = h.dh; pn = h.pn; n = h.n; ct = ct }), decode_message)

-- The counters that have been delivered, `i` among them.
abbrev pub mark : ℕ → (ℕ → Bool) → ℕ → Bool
mark i got j = if i == j then true else got j

module _ (p : Primitives) (ch : Chain) where
  -- `r` receives on this chain. For a counter that has not been delivered, the map of skipped keys
  -- holds the message key exactly if the chain is past it.
  pub record Receives (got : ℕ → Bool) (r : Ratchet) : Type 0 where
    pub key : r.ckr ≡ some (chain_key p ch r.nr)
    pub remote : r.dhr ≡ some ch.dh
    pub data_bound : r.ad ≡ ch.ad
    pub pending :
        (i : ℕ)
        → i < 2 ^ 32
        → got i ≡ false
        → lookup (skipped_key ch.dh i) r.skipped
          ≡ (if ltb i r.nr then some (message_key p ch i) else none)

module _ (p : Primitives) (ch : Chain) (bytes : All IsByte ch.dh) where
  key_eq :
      (i j : ℕ)
      → i < 2 ^ 32
      → j < 2 ^ 32
      → bytes_eq (skipped_key ch.dh i) (skipped_key ch.dh j) ≡ (i == j)
  key_eq i j hi hj = elim (Bool-cases (i == j)) [
    | inl e ↦ rw (e, (==_iff i j).0 e) (bytes_eq_refl _)
    | inr ne ↦ rw ne (
        ground (
          arith,
          bytes_eq_iff (skipped_key ch.dh i) (skipped_key ch.dh j),
          skipped_key_injective ch.dh ch.dh i j bytes bytes hi hj,
        ))
  ]

  nr_one : (k : ℕ) (r : Ratchet) → r.nr + suc k < 2 ^ 32 → (skip_one p r).nr + k < 2 ^ 32
  unfolding skip_one
  nr_one k r h = omega arith

  nr_suc : (k : ℕ) (r : Ratchet) → (skip_one p r).nr + k ≡ r.nr + suc k
  unfolding skip_one
  nr_suc k r = omega arith

  module _ {got : ℕ → Bool} where
    skip_one-Receives :
        (r : Ratchet) → r.nr + 1 < 2 ^ 32 → Receives p ch got r → Receives p ch got (skip_one p r)
    unfolding skip_one
    skip_one-Receives r h v = record {
      key =
          rw (v.key, chain_step-chain_key p ch r.nr)
            (ap (λ k. some (chain_key p ch k)) (omega arith));
      remote = v.remote;
      data_bound = v.data_bound;
      pending = λ i hi fresh.
          rw
            (
              v.remote,
              v.key,
              chain_step-chain_key p ch r.nr,
              lookup-insert,
              key_eq r.nr i (omega arith) hi,
            )
            (ground (arith, v.pending i hi fresh));
    }

    skip_loop-Receives :
        (k : ℕ) (r : Ratchet)
        → r.nr + k < 2 ^ 32
        → Receives p ch got r
        → Receives p ch got (skip_loop p k r) × ((skip_loop p k r).nr ≡ r.nr + k)
    unfolding skip_loop
    skip_loop-Receives zero r h v = (v, omega arith)
    skip_loop-Receives (suc k) r h v =
        let (w, n) =
          skip_loop-Receives k (skip_one p r) (nr_one k r h)
            (skip_one-Receives r (omega arith) v) in
        (w, n ∙ nr_suc k r)

    -- `skip` up to a counter within the limit ends with the chain at that counter, or where it was.
    pub skip-Receives :
        (i : ℕ) (r : Ratchet)
        → i ≤ r.nr + 1000
        → r.nr + 1000 < 2 ^ 32
        → Receives p ch got r
        → (s : Ratchet) × (skip p i r ≡ done tt s)
          × Receives p ch got s
          × (s.nr ≡ r.nr + (i - r.nr))
    unfolding skip
    skip-Receives i r near room v =
        let (w, n) = skip_loop-Receives (i - r.nr) r (omega arith) v in
        (skip_loop p (i - r.nr) r, rw (v.key, skip) (ground arith), w, n)

module _ (p : Primitives) (c : Codec WireMessage) where
  -- `decrypt` of a well-formed message, by what `try_skipped` says.
  pub decrypt-message :
      (fresh : Result Bytes) (h : Header) (ct : Bytes) (r : Ratchet) {s : Ratchet}
      {o : Option Bytes}
      → try_skipped p c h ct r ≡ done o s
      → decrypt p c fresh (encode_message c h ct) r ≡ after_skipped p c fresh h ct o s
  unfolding decrypt
  decrypt-message fresh h ct r e =
      rw (decode-encode c h ct) (>>=-done (try_skipped p c h ct) (after_skipped p c fresh h ct) e)

  -- `decrypt` of a message whose key was not skipped.
  pub decrypt_unskipped :
      (fresh : Result Bytes) (h : Header) (ct : Bytes) (r : Ratchet) {r' s : Ratchet}
      → lookup (skipped_key (slice h.dh) h.n) r.skipped ≡ none
      → follow_ratchet p c fresh h r ≡ done tt r'
      → skip p h.n r' ≡ done tt s
      → decrypt p c fresh (encode_message c h ct) r ≡ open_next p c h ct s
  unfolding try_skipped after_skipped
  decrypt_unskipped fresh h ct r missing turn e =
      decrypt-message fresh h ct r {s = r} {o = none} (rw (missing, try_skipped))
      ∙ >>=-done (follow_ratchet p c fresh h) (λ _. skip p h.n >> open_next p c h ct) turn
      ∙ >>=-done (skip p h.n) (λ _. open_next p c h ct) e

module _ (p : Primitives) (c : Codec WireMessage) (ch : Chain) where
  pub follow_ratchet-Receives :
      (fresh : Result Bytes) (got : ℕ → Bool) (i : ℕ) (r : Ratchet)
      → Receives p ch got r
      → follow_ratchet p c fresh (header_at p ch i) r ≡ done tt r
  unfolding follow_ratchet is_new_dh header_at
  follow_ratchet-Receives fresh got i r v = rw (v.remote, bytes_eq_refl ch.dh)

module _ (p : Primitives) (c : Codec WireMessage) (ch : Chain) (bytes : All IsByte ch.dh) where
  -- The next message of the chain is opened.
  pub open_next-Receives :
      (got : ℕ → Bool) (plaintext : Bytes) (r : Ratchet)
      → r.nr + 1 < 2 ^ 32
      → Receives p ch got r
      → (open_next p c (header_at p ch r.nr) (ciphertext_at p ch r.nr plaintext) r
          ≡ done plaintext (advance_receiving p c r))
        × Receives p ch (mark r.nr got) (advance_receiving p c r)
        × ((advance_receiving p c r).nr ≡ r.nr + 1)
  unfolding open_next advance_receiving ciphertext_at
  open_next-Receives got plaintext r h v = (
    rw (v.key, v.data_bound, chain_step-chain_key p ch r.nr, aead_open-sealed),
    record {
      key =
          rw (v.key, chain_step-chain_key p ch r.nr)
            (ap (λ k. some (chain_key p ch k)) (ground arith));
      remote = v.remote;
      data_bound = v.data_bound;
      pending = λ i hi fresh. ground (arith, v.pending i hi);
    },
    ground arith,
  )

  -- A message that was skipped is opened with its stored key, and the key is dropped.
  pub take_skipped :
      (fresh : Result Bytes) (got : ℕ → Bool) (i : ℕ) (plaintext : Bytes) (r : Ratchet)
      → i < r.nr
      → r.nr < 2 ^ 32
      → got i ≡ false
      → Receives p ch got r
      → (s : Ratchet) × (decrypt p c fresh (message_at p c ch i plaintext) r ≡ done plaintext s)
        × Receives p ch (mark i got) s
        × (s.nr ≡ r.nr)
  unfolding message_at try_skipped after_skipped ciphertext_at header_at
  take_skipped fresh got i plaintext r lt h new v = (
    record r { skipped = remove (skipped_key ch.dh i) r.skipped },
    decrypt-message p c fresh (header_at p ch i) (ciphertext_at p ch i plaintext) r found,
    record {
      key = v.key;
      remote = v.remote;
      data_bound = v.data_bound;
      pending = λ j hj fresh'.
          rw (lookup-remove, key_eq p ch bytes i j (omega arith) hj)
            (ground (arith, v.pending j hj));
    },
    refl,
  )
    where
      stored : lookup (skipped_key ch.dh i) r.skipped ≡ some (message_key p ch i)
      stored = ground (arith, v.pending i (omega arith) new)

      opened :
          aead_open p
            (message_key p ch i)
            (ciphertext_at p ch i plaintext)
            (r.ad ++ header_bytes (header_at p ch i))
          ≡ ok plaintext
      opened = rw v.data_bound (aead_open-sealed p _ plaintext _)

      found :
          try_skipped p c (header_at p ch i) (ciphertext_at p ch i plaintext) r
          ≡ done (some plaintext) (record r { skipped = remove (skipped_key ch.dh i) r.skipped })
      found = rw (stored, opened, try_skipped)

  -- A message at or beyond the chain's counter is opened once the keys before it are stored.
  pub take_new :
      (fresh : Result Bytes) (got : ℕ → Bool) (i : ℕ) (plaintext : Bytes) (r : Ratchet)
      → r.nr ≤ i
      → i ≤ r.nr + 1000
      → r.nr + 1001 < 2 ^ 32
      → got i ≡ false
      → Receives p ch got r
      → (s : Ratchet) × (decrypt p c fresh (message_at p c ch i plaintext) r ≡ done plaintext s)
        × Receives p ch (mark i got) s
        × (s.nr ≡ i + 1)
  unfolding message_at header_at
  take_new fresh got i plaintext r le near h new v =
      let (s, e, w, n) = skip-Receives p ch bytes i r near (omega arith) v in
      let at : s.nr ≡ i = omega arith in
      let (o, x, m) = open_next-Receives got plaintext s (omega arith) w in
      (
        advance_receiving p c s,
        decrypt_unskipped p c fresh (header_at p ch i) (ciphertext_at p ch i plaintext) r missing
              (follow_ratchet-Receives p c ch fresh got i r v) e
            ∙ subst
                (λ k.
                  open_next p c (header_at p ch k) (ciphertext_at p ch k plaintext) s
                  ≡ done plaintext (advance_receiving p c s))
                at o,
        subst (λ k. Receives p ch (mark k got) (advance_receiving p c s)) at x,
        omega arith,
      )
    where
      missing : lookup (skipped_key ch.dh i) r.skipped ≡ none
      missing = ground (arith, v.pending i (omega arith) new)
