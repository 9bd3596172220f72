-- ===== src/Crypto/X3dh/Agreement.antt =====
-- X3DH: both sides compute the same secret, and a bundle with a wrong signature is refused.
use stunner.Base.{◌≡◌, refl, ◌++◌, ap, true, false, length}
use stunner.Base.Bytes.{Bytes}
use stunner.Base.Result.{Result, ok, err, bad_prekey_signature}
use stunner.Identity.{Identity, generate, agreement_pub, verify_signature, sign_message}
use stunner.Crypto.Primitives.{Primitives}
use stunner.Crypto.Ratchet.{slice}
use stunner.Crypto.X3dh.{
  PreKeys, PreKeyBundle, Initiation, new_public_key, generate_pre_keys, bundle_of, derive_x3dh,
  dh_or_nil, add_one_time, x3dh_initiate, x3dh_respond,
}

-- Prekeys as `GeneratePreKeys` makes them for a proper identity.
pub record IsProper (p : Primitives) (k : PreKeys) : Type 0 where
  pub length_agreement : length k.id.agreement_priv ≡ 32
  pub length_signed_pre : length k.signed_pre ≡ 32
  pub length_one_time : length k.one_time ≡ 32
  pub length_sign : length k.id.signing_pub ≡ 32
  pub signature : p.verify k.id.signing_pub (p.public k.signed_pre) k.signed_pre_sig ≡ true

-- For an identity whose keys have the lengths of Go's and belong together, and drawn keys of 32
-- bytes, GeneratePreKeys succeeds, and its prekeys are proper prekeys of that identity: the
-- signature verifies under the identity's public key.
pub generate_pre_keys-IsProper :
    (p : Primitives) (signed_pre one_time : Bytes) (id : Identity)
    → length id.agreement_priv ≡ 32
    → length signed_pre ≡ 32
    → length one_time ≡ 32
    → length id.signing_priv ≡ 64
    → p.is_signing_key id.signing_priv ≡ true
    → id.signing_pub ≡ p.sign_public id.signing_priv
    → (k : PreKeys) × (generate_pre_keys p (ok signed_pre) (ok one_time) id ≡ ok k)
      × (k.id ≡ id)
      × IsProper p k
unfolding generate_pre_keys sign_message
generate_pre_keys-IsProper p s o id a b c d e f = (
  record {
    id = id;
    signed_pre = s;
    signed_pre_sig = p.sign id.signing_priv (p.public s);
    one_time = o;
  },
  rw d,
  refl,
  record {
    length_agreement = a;
    length_signed_pre = b;
    length_one_time = c;
    length_sign = rw f (p.length-sign_public id.signing_priv);
    signature = rw f (p.verify-sign id.signing_priv (p.public s) e);
  },
)

-- From a signing key as GenerateKey makes them, of 64 bytes, and drawn keys of 32 bytes, Generate
-- makes an identity and GeneratePreKeys prekeys of it, and these are proper prekeys, with which
-- X3DH works; the signature in the bundle that is published passes the check that an initiator
-- makes, under the identity key in the bundle, which is the public part of the signing key.
pub generate_pre_keys-generate :
    (p : Primitives) (signing agreement signed_pre one_time : Bytes)
    → length signing ≡ 64
    → p.is_signing_key signing ≡ true
    → length agreement ≡ 32
    → length signed_pre ≡ 32
    → length one_time ≡ 32
    → (id : Identity) × (k : PreKeys) × (generate p (ok signing) (ok agreement) ≡ ok id)
      × (generate_pre_keys p (ok signed_pre) (ok one_time) id ≡ ok k)
      × (k.id ≡ id)
      × IsProper p k
      × ((bundle_of p k).identity_sign ≡ p.sign_public signing)
      × (verify_signature p
            (bundle_of p k).identity_sign
            (bundle_of p k).signed_pre_key
            (bundle_of p k).signed_pre_key_sig
          ≡ true)
unfolding generate bundle_of verify_signature
generate_pre_keys-generate p signing agreement s o n good a b c =
    let id : Identity = record {
      signing_pub = p.sign_public signing;
      signing_priv = signing;
      agreement_priv = agreement;
    } in
    let (k, made, same, v) = generate_pre_keys-IsProper p s o id a b c n good refl in
    (
      id,
      k,
      refl,
      made,
      same,
      v,
      ap (λ (i : Identity). i.signing_pub) same,
      rw v.length_sign v.signature,
    )

module _ (p : Primitives) where
  new_public_key_lem : (key : Bytes) → new_public_key (p.public key) ≡ ok (p.public key)
  unfolding new_public_key
  new_public_key_lem key = rw (p.length-public key)

  dh_or_nil_comm :
      (a b : Bytes)
      → length a ≡ 32
      → length b ≡ 32
      → dh_or_nil p a (p.public b) ≡ dh_or_nil p b (p.public a)
  unfolding dh_or_nil
  dh_or_nil_comm a b n m = ap slice (p.ecdh_comm a b n m)

-- The secret, from the private keys of the initiator.
initiator_secret : Primitives → Identity → PreKeys → Bytes → Bytes
initiator_secret p local k eph = derive_x3dh p (
    ((dh_or_nil p local.agreement_priv (p.public k.signed_pre)
        ++ dh_or_nil p eph (p.public k.id.agreement_priv))
      ++ dh_or_nil p eph (p.public k.signed_pre))
    ++ dh_or_nil p eph (p.public k.one_time))

-- For proper prekeys, and an identity and an ephemeral key with private keys of 32 bytes, the
-- initiator succeeds, and the responder derives the same secret from the handshake's public keys.
pub x3dh_agree :
    (p : Primitives) (local : Identity) (k : PreKeys) (eph : Bytes)
    → length local.agreement_priv ≡ 32
    → length eph ≡ 32
    → IsProper p k
    → (i : Initiation) × (x3dh_initiate p (ok eph) local (bundle_of p k) ≡ ok i)
      × (i.eph_pub ≡ p.public eph)
      × (x3dh_respond p k (agreement_pub p local) i.eph_pub i.used_otp ≡ ok i.sk)
unfolding x3dh_initiate x3dh_respond bundle_of agreement_pub verify_signature add_one_time
    initiator_secret
x3dh_agree p local k eph n m v = (
  record { sk = initiator_secret p local k eph; eph_pub = p.public eph; used_otp = true },
  rw (
    v.length_sign,
    v.signature,
    new_public_key_lem p k.signed_pre,
    new_public_key_lem p k.id.agreement_priv,
    p.length-public k.one_time,
    new_public_key_lem p k.one_time,
  ),
  refl,
  rw (
    new_public_key_lem p local.agreement_priv,
    new_public_key_lem p eph,
    dh_or_nil_comm p k.signed_pre local.agreement_priv v.length_signed_pre n,
    dh_or_nil_comm p k.id.agreement_priv eph v.length_agreement m,
    dh_or_nil_comm p k.signed_pre eph v.length_signed_pre m,
    dh_or_nil_comm p k.one_time eph v.length_one_time m,
  ),
)

-- A bundle whose prekey signature does not verify under its identity key starts no session.
pub x3dh_bad_signature :
    (p : Primitives) (g : Result Bytes) (local : Identity) (b : PreKeyBundle)
    → verify_signature p b.identity_sign b.signed_pre_key b.signed_pre_key_sig ≡ false
    → x3dh_initiate p g local b ≡ err bad_prekey_signature
unfolding x3dh_initiate
x3dh_bad_signature p g local b h = rw h
