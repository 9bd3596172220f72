-- ===== src/Crypto/X3dh.antt =====
-- core/pkg/crypto/x3dh.go: prekeys and the X3DH key agreement. The arguments `Result Bytes` are
-- what the calls of ecdh.X25519().GenerateKey return.
pub mod Agreement
use stunner.Base.{
  ℕ, ◌-◌, ◌<◌, Bool, true, false, Option, none, some, List, [], ◌∷◌, ◌++◌, ltb, ◌==◌, if◌then◌else◌,
  length, replicate,
}
use stunner.Base.Bytes.{Bytes, codes}
use stunner.Base.Result.{
  Error, Result, ok, err, ◌>>=◌, ◌>>◌, check, bad_public_key, bad_prekey_signature,
}
use stunner.Identity.{Identity, agreement_pub, verify_signature, sign_message}
use stunner.Crypto.Primitives.{Primitives}
use stunner.Crypto.Kdf.{hkdf}
use stunner.Crypto.Ratchet.{slice}

pub record PreKeyBundle : Type 0 where
  pub identity_sign : Bytes
  pub identity_dh : Bytes
  pub signed_pre_key : Bytes
  pub signed_pre_key_sig : Bytes
  pub one_time_pre_key : Bytes

pub record PreKeys : Type 0 where
  pub id : Identity
  pub signed_pre : Bytes
  pub signed_pre_sig : Bytes
  pub one_time : Bytes

-- What `x3dhInitiate` returns.
pub record Initiation : Type 0 where
  pub sk : Bytes
  pub eph_pub : Bytes
  pub used_otp : Bool

-- ecdh.X25519().NewPublicKey
unfoldable pub new_public_key : Bytes → Result Bytes
new_public_key b = if length b == 32 then ok b else err bad_public_key

module _ (p : Primitives) where
  open p use {public, ecdh}

  unfoldable pub generate_pre_keys : Result Bytes → Result Bytes → Identity → Result PreKeys
  generate_pre_keys g g' id = do
    signed_pre ← g
    one_time ← g'
    sig ← sign_message p id (public signed_pre)
    ok (record { id = id; signed_pre = signed_pre; signed_pre_sig = sig; one_time = one_time })

  unfoldable pub bundle_of : PreKeys → PreKeyBundle
  bundle_of k = record {
    identity_sign = k.id.signing_pub;
    identity_dh = agreement_pub p k.id;
    signed_pre_key = public k.signed_pre;
    signed_pre_key_sig = k.signed_pre_sig;
    one_time_pre_key = public k.one_time;
  }

  -- deriveX3DH: the padding is 32 bytes 0xFF, the salt 32 zeros.
  unfoldable pub derive_x3dh : Bytes → Bytes
  derive_x3dh concat =
      hkdf p (replicate 32 0) (replicate 32 0xff ++ concat) (codes "stunner-x3dh") 32

  -- `dh, _ := key.ECDH(pub)`: an error is dropped, and leaves a nil slice.
  unfoldable pub dh_or_nil : Bytes → Bytes → Bytes
  dh_or_nil key remote = slice (ecdh key remote)

  -- The part of `x3dhInitiate` on the one-time prekey, if the bundle has one.
  unfoldable pub add_one_time : Bytes → PreKeyBundle → Bytes → Result Initiation
  add_one_time eph b concat =
      if ltb 0 (length b.one_time_pre_key)
      then (do
        opk ← new_public_key b.one_time_pre_key
        ok (record {
          sk = derive_x3dh (concat ++ dh_or_nil eph opk);
          eph_pub = public eph;
          used_otp = true;
        }))
      else ok (record { sk = derive_x3dh concat; eph_pub = public eph; used_otp = false })

  unfoldable pub x3dh_initiate : Result Bytes → Identity → PreKeyBundle → Result Initiation
  x3dh_initiate g local b = do
    check (verify_signature p b.identity_sign b.signed_pre_key b.signed_pre_key_sig)
        bad_prekey_signature
    eph ← g
    spk ← new_public_key b.signed_pre_key
    ik_b ← new_public_key b.identity_dh
    add_one_time eph b
        ((dh_or_nil local.agreement_priv spk ++ dh_or_nil eph ik_b) ++ dh_or_nil eph spk)

  unfoldable pub x3dh_respond : PreKeys → Bytes → Bytes → Bool → Result Bytes
  x3dh_respond pre initiator_ik eph_pub used_otp = do
    ik_a ← new_public_key initiator_ik
    eph ← new_public_key eph_pub
    let concat =
        (dh_or_nil pre.signed_pre ik_a ++ dh_or_nil pre.id.agreement_priv eph)
        ++ dh_or_nil pre.signed_pre eph
    ok (derive_x3dh (if used_otp then concat ++ dh_or_nil pre.one_time eph else concat))
