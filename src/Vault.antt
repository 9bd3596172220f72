-- ===== src/Vault.antt =====
-- core/pkg/vault/vault.go: boxes sealed with AES-256-GCM, and PBKDF2-HMAC-SHA256.
pub mod Box
pub mod Pbkdf2
use Prim.Native.Nat.{bit_xor}
use stunner.Base.{
  ℕ, zero, suc, ◌+◌, ◌-◌, ◌/◌, ◌%◌, ◌^◌, Bool, not, List, [], ◌∷◌, ◌++◌, ltb, ◌==◌, length, take,
  drop,
}
use stunner.Base.Bytes.{Bytes, be32}
use stunner.Base.Result.{
  Result, ok, err, ◌>>=◌, ◌>>◌, check, or_err, bad_store_key, bad_ciphertext, ciphertext_too_short,
}
use stunner.Crypto.Primitives.{Primitives}

abbrev pub key_size : ℕ
key_size = 32

-- newGCM; a key of 32 bytes is one that aes.NewCipher takes.
unfoldable pub new_gcm : Bytes → Result (Unit {0})
new_gcm key = check (length key == key_size) bad_store_key

module _ (p : Primitives) where
  -- `Seal`; `g` is what reading the nonce of 12 bytes from the random source gives.
  unfoldable pub seal_box : Result Bytes → Bytes → Bytes → Result Bytes
  seal_box g key plaintext = do new_gcm key; nonce ← g; ok (nonce ++ p.seal key nonce plaintext [])

  -- `Open`
  unfoldable pub open_box : Bytes → Bytes → Result Bytes
  open_box key sealed = do
    new_gcm key
    check (not (ltb (length sealed) 12)) ciphertext_too_short
    or_err (p.unseal key (take 12 sealed) (drop 12 sealed) []) bad_ciphertext

  -- `t[i] ^= u[i]` for every place of `t`; `u` has the same length.
  unfoldable pub xor_into : Bytes → Bytes → Bytes
  xor_into [] u = []
  xor_into (x ∷ t) [] = x ∷ t
  xor_into (x ∷ t) (y ∷ u) = bit_xor x y ∷ xor_into t u

  -- `for n := 2; n <= iter; n++`: the rounds that are left.
  unfoldable pub fold_rounds : ℕ → Bytes → Bytes → Bytes → Bytes
  fold_rounds zero password u t = t
  fold_rounds (suc n) password u t =
      fold_rounds n password (p.hmac password u) (xor_into t (p.hmac password u))

  unfoldable pub pbkdf2_block : Bytes → Bytes → ℕ → ℕ → Bytes
  pbkdf2_block password salt iter block =
      let t = p.hmac password (salt ++ be32 (block % 2 ^ 32)) in fold_rounds (iter - 1) password t t

  -- `for block := 1; block <= numBlocks; block++`, from `block`, with the blocks that are left.
  unfoldable pub pbkdf2_blocks : ℕ → Bytes → Bytes → ℕ → ℕ → Bytes
  pbkdf2_blocks zero password salt iter block = []
  pbkdf2_blocks (suc left) password salt iter block =
      pbkdf2_block password salt iter block ++ pbkdf2_blocks left password salt iter (block + 1)

  unfoldable pub pbkdf2 : Bytes → Bytes → ℕ → ℕ → Bytes
  pbkdf2 password salt iter key_len =
      take key_len (pbkdf2_blocks ((key_len + 32 - 1) / 32) password salt iter 1)

  -- `DeriveKey`
  unfoldable pub derive_key : Bytes → Bytes → ℕ → Bytes
  derive_key passphrase salt iterations = pbkdf2 passphrase salt iterations key_size
