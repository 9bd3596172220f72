-- ===== src/Examples/Sessions.antt =====
-- Two stores of the toy operations: a handshake and its first message.
use stunner.Base.{ℕ, ◌≡◌, refl, true, some, ◌+◌, none, [], ◌∷◌, replicate}
use stunner.Base.Bytes.{Bytes, codes}
use stunner.Base.Eq.{bytes_eq}
use stunner.Base.Result.{ok}
use stunner.Base.Method.{done}
use stunner.Identity.{Identity, generate, verify_signature, fingerprint, agreement_pub}
use stunner.Crypto.X3dh.{
  PreKeys, Initiation, bundle_of, generate_pre_keys, x3dh_initiate, x3dh_respond,
}
use stunner.Crypto.X3dh.Agreement.{IsProper, generate_pre_keys-generate, x3dh_agree}
use stunner.Crypto.Session.{
  Handshake, MemStore, initiate, accept, session_encrypt, session_decrypt, get_session,
}
use stunner.Crypto.Session.Established.{session_delivers}
use stunner.Examples.Toy.{toy, toy_codec}

abbrev pub key_of : ℕ → Bytes
key_of n = n ∷ replicate 31 0

abbrev pub person : ℕ → Identity
person n = record {
  signing_pub = key_of n;
  signing_priv = n ∷ replicate 63 0;
  agreement_priv = key_of (n + 1);
}

generate_pre_keys-generate_example :
    (id : Identity) × (k : PreKeys) × (generate toy (ok (person 20).signing_priv) (ok (key_of 21))
      ≡ ok id)
    × (generate_pre_keys toy (ok (key_of 3)) (ok (key_of 4)) id ≡ ok k)
    × (k.id ≡ id)
    × IsProper toy k
    × ((bundle_of toy k).identity_sign ≡ key_of 20)
    × (verify_signature toy
          (bundle_of toy k).identity_sign
          (bundle_of toy k).signed_pre_key
          (bundle_of toy k).signed_pre_key_sig
        ≡ true)
generate_pre_keys-generate_example =
    generate_pre_keys-generate toy (person 20).signing_priv (key_of 21) (key_of 3) (key_of 4) refl
      refl refl refl refl

abbrev pub pre_keys : PreKeys
pre_keys = record {
  id = person 20;
  signed_pre = key_of 3;
  signed_pre_sig = key_of 23;
  one_time = key_of 4;
}

pub pre_keys-IsProper : IsProper toy pre_keys
unfolding bytes_eq
pre_keys-IsProper = record {
  length_agreement = refl;
  length_signed_pre = refl;
  length_one_time = refl;
  length_sign = refl;
  signature = refl;
}

x3dh_agree_example :
    (i : Initiation) × (x3dh_initiate toy (ok (key_of 7)) (person 10) (bundle_of toy pre_keys)
      ≡ ok i)
    × (i.eph_pub ≡ key_of 7)
    × (x3dh_respond toy pre_keys (agreement_pub toy (person 10)) i.eph_pub i.used_otp ≡ ok i.sk)
x3dh_agree_example = x3dh_agree toy (person 10) pre_keys (key_of 7) refl refl pre_keys-IsProper

abbrev pub alice : MemStore
alice = record { local = person 10; pre = none; sessions = []; heap = [] }

abbrev pub bob : MemStore
bob = record { local = person 20; pre = some pre_keys; sessions = []; heap = [] }

session_delivers_example :
    (h g : ℕ) × (hs : Handshake) × (w : Bytes) × (alice' alice'' bob' bob'' : MemStore) × (initiate
        toy
        (ok (key_of 7))
        (ok (key_of 8))
        (bundle_of toy pre_keys)
        alice
      ≡ done (h, hs) alice')
    × (accept toy hs bob ≡ done g bob')
    × (session_encrypt toy toy_codec h (codes "hello") alice' ≡ done w alice'')
    × (session_decrypt toy toy_codec g (ok (key_of 9)) w bob' ≡ done (codes "hello") bob'')
    × (get_session (fingerprint toy bob.local.signing_pub) alice' ≡ some h)
    × (get_session (fingerprint toy alice.local.signing_pub) bob' ≡ some g)
session_delivers_example =
    session_delivers toy toy_codec alice bob pre_keys (key_of 7) (key_of 8) (key_of 9)
      (codes "hello") refl refl pre_keys-IsProper refl refl refl refl
