-- ===== src/Identity/Marshal.antt =====
-- The serialized identity is read back.
use stunner.Base.{
  ◌≡◌, ◌++◌, arith, ◌==◌, length, drop, length-append, take-append_of_length, drop-append_of_length,
  take-append-drop, ==_iff,
}
use stunner.Base.Bytes.{Bytes}
use stunner.Base.Result.{ok, ok_injective, check-ok}
use stunner.Crypto.Primitives.{Primitives}
use stunner.Identity.{Identity, marshal, unmarshal}

-- Unmarshal undoes Marshal, for an identity with a 64-byte signing key and a 32-byte agreement key
-- whose public signing key belongs to the private one, as in every identity that Generate makes.
pub unmarshal-marshal :
    (p : Primitives) (id : Identity)
    → length id.signing_priv ≡ 64
    → length id.agreement_priv ≡ 32
    → id.signing_pub ≡ p.sign_public id.signing_priv
    → unmarshal p (marshal p id) ≡ ok id
unfolding unmarshal marshal
unmarshal-marshal p id n m e =
    let total : length (id.signing_priv ++ id.agreement_priv) ≡ 96 =
      omega (arith, length-append id.signing_priv id.agreement_priv) in
    rw (
      total,
      take-append_of_length 64 id.signing_priv id.agreement_priv n,
      drop-append_of_length 64 id.signing_priv id.agreement_priv n,
      m,
      ← e,
    )

-- What Unmarshal accepts has 96 bytes, and is what Marshal writes for the identity that it returns.
pub marshal-unmarshal :
    (p : Primitives) (b : Bytes) (id : Identity)
    → unmarshal p b ≡ ok id
    → (length b ≡ 96) × (marshal p id ≡ b)
unfolding unmarshal marshal
marshal-unmarshal p b id h =
    let (whole, h') = check-ok (length b == 96) _ _ h in
    let (_, h'') = check-ok (length (drop 64 b) == 32) _ _ h' in
    ((==_iff (length b) 96).0 whole, rw (← ok_injective _ id h'') (take-append-drop 64 b))
