-- ===== src/Vault/Box.antt =====
-- A sealed box opens again, and only under a key of the right size.
use stunner.Base.{
  ◌≡◌, [], ◌++◌, arith, length, take-append_of_length, drop-append_of_length, length-append,
}
use stunner.Base.Bytes.{Bytes}
use stunner.Base.Result.{ok}
use stunner.Crypto.Primitives.{Primitives}
use stunner.Vault.{new_gcm, seal_box, open_box}

-- With a key of 32 bytes and a nonce of 12, sealing succeeds and what it makes opens to the text.
pub open_box-seal_box :
    (p : Primitives) (key nonce plaintext : Bytes)
    → length key ≡ 32
    → length nonce ≡ 12
    → (sealed : Bytes) × (seal_box p (ok nonce) key plaintext ≡ ok sealed)
      × (open_box p key sealed ≡ ok plaintext)
unfolding seal_box open_box new_gcm
open_box-seal_box p key nonce plaintext k n =
    let ct = p.seal key nonce plaintext [] in
    let long = length-append nonce ct in
    (
      nonce ++ ct,
      rw k,
      rw
          (
            k,
            take-append_of_length 12 nonce ct n,
            drop-append_of_length 12 nonce ct n,
            p.unseal-seal key nonce plaintext [] k n,
          )
          (ground (arith, long)),
    )
