-- ===== src/Crypto/Kdf.antt =====
-- core/pkg/crypto/kdf.go: HKDF (RFC 5869) over HMAC-SHA256, and its proofs' lemma on lengths.
use stunner.Base.{
  ℕ, zero, suc, ◌+◌, ◌%◌, ◌≤◌, ◌≡◌, [], ◌∷◌, ◌++◌, arith, ltb, ◌==◌, if◌then◌else◌, length, take,
  replicate, length-append, length-take,
}
use stunner.Base.Bytes.{Bytes}
use stunner.Crypto.Primitives.{Primitives}

module _ (p : Primitives) where
  open p use {hmac, length-hmac}

  -- One round of the expansion: T(i) = HMAC(prk, T(i-1) || info || i).
  unfoldable pub expand_block : Bytes → Bytes → Bytes → ℕ → Bytes
  expand_block prk info t counter = hmac prk (t ++ info ++ counter ∷ [])

  -- `for counter := byte(1); len(out) < length; counter++`, on fuel.
  unfoldable pub expand : ℕ → Bytes → Bytes → ℕ → ℕ → Bytes → Bytes → Bytes
  unfolding expand_block
  expand zero prk info size counter t out = out
  expand (suc fuel) prk info size counter t out =
      let t' = expand_block prk info t counter in
      let rest = expand fuel prk info size ((counter + 1) % 256) t' (out ++ t') in
      if ltb (length out) size then rest else out

  -- Every round adds 32 bytes, so `size` rounds are more than enough.
  unfoldable pub hkdf : Bytes → Bytes → Bytes → ℕ → Bytes
  unfolding expand
  hkdf salt ikm info size =
      let key = if length salt == 0 then replicate 32 0 else salt in
      take size (expand size (hmac key ikm) info size 1 [] [])

  le-length-expand :
      (fuel : ℕ) (prk info : Bytes) (size counter : ℕ) (t out : Bytes)
      → size ≤ fuel + length out
      → size ≤ length (expand fuel prk info size counter t out)
  unfolding expand
  le-length-expand zero prk info size counter t out h = omega arith
  le-length-expand (suc fuel) prk info size counter t out h =
      let t' = hmac prk (t ++ info ++ counter ∷ []) in
      ground (
        arith,
        le-length-expand fuel prk info size ((counter + 1) % 256) t' (out ++ t'),
        length-append out t',
        length-hmac prk (t ++ info ++ counter ∷ []),
      )

  -- The derived key has exactly the length that was asked for.
  pub length-hkdf : (salt ikm info : Bytes) (size : ℕ) → length (hkdf salt ikm info size) ≡ size
  unfolding hkdf
  length-hkdf salt ikm info size =
      let key = if length salt == 0 then replicate 32 0 else salt in
      let out = expand size (hmac key ikm) info size 1 [] [] in
      omega (
        arith,
        length-take size out,
        le-length-expand size (hmac key ikm) info size 1 [] [] (omega arith),
      )

  -- hmacSHA256
  unfoldable pub hmac_sha256 : Bytes → Bytes → Bytes
  hmac_sha256 key message = hmac key message
