-- ===== src/Vault/Pbkdf2.antt =====
-- The derived key has the length that was asked for.
use stunner.Base.{
  ℕ, zero, suc, ◌+◌, ◌-◌, ◌*◌, ◌/◌, ◌%◌, ◌^◌, ◌≡◌, refl, ap, ◌∙◌, [], ◌∷◌, ◌++◌, arith, length,
  length-append, length-take,
}
use stunner.Base.Bytes.{Bytes, be32}
use stunner.Crypto.Primitives.{Primitives}
use stunner.Vault.{xor_into, fold_rounds, pbkdf2_block, pbkdf2_blocks, pbkdf2}

module _ (p : Primitives) where
  length-xor_into : (t u : Bytes) → length (xor_into p t u) ≡ length t
  unfolding xor_into
  length-xor_into [] u = refl
  length-xor_into (x ∷ t) [] = refl
  length-xor_into (x ∷ t) (y ∷ u) = ap suc (length-xor_into t u)

  length-fold_rounds :
      (n : ℕ) (password u t : Bytes) → length (fold_rounds p n password u t) ≡ length t
  unfolding fold_rounds
  length-fold_rounds zero password u t = refl
  length-fold_rounds (suc n) password u t =
      length-fold_rounds n password (p.hmac password u) (xor_into p t (p.hmac password u))
      ∙ length-xor_into t (p.hmac password u)

  length-pbkdf2_block :
      (password salt : Bytes) (iter block : ℕ)
      → length (pbkdf2_block p password salt iter block) ≡ 32
  unfolding pbkdf2_block
  length-pbkdf2_block password salt iter block =
      let t = p.hmac password (salt ++ be32 (block % 2 ^ 32)) in
      length-fold_rounds (iter - 1) password t t
      ∙ p.length-hmac password (salt ++ be32 (block % 2 ^ 32))

  length-pbkdf2_blocks :
      (left : ℕ) (password salt : Bytes) (iter block : ℕ)
      → length (pbkdf2_blocks p left password salt iter block) ≡ left * 32
  unfolding pbkdf2_blocks
  length-pbkdf2_blocks zero password salt iter block = omega arith
  length-pbkdf2_blocks (suc left) password salt iter block = omega (
    arith,
    length-append (pbkdf2_block p password salt iter block)
        (pbkdf2_blocks p left password salt iter (block + 1)),
    length-pbkdf2_block password salt iter block,
    length-pbkdf2_blocks left password salt iter (block + 1),
  )

  -- PBKDF2 returns a key of exactly the length that is asked for, whatever the iteration count.
  pub length-pbkdf2 :
      (password salt : Bytes) (iter key_len : ℕ)
      → length (pbkdf2 p password salt iter key_len) ≡ key_len
  unfolding pbkdf2
  length-pbkdf2 password salt iter key_len =
      let left = (key_len + 32 - 1) / 32 in
      omega (
        arith,
        length-take key_len (pbkdf2_blocks p left password salt iter 1),
        length-pbkdf2_blocks left password salt iter 1,
      )
