-- ===== src/Crypto/Session/Established.antt =====
-- A handshake between two stores establishes a session that works.
use stunner.Base.{ℕ, ◌≡◌, refl, subst, inl, arith, some, none, length, []}
use stunner.Base.Bytes.{Bytes, sorted_append_comm}
use stunner.Base.Eq.{bytes_eq_instance}
use stunner.Base.Dict.{lookup, lookup-insert_self}
use stunner.Base.Result.{Result, ok}
use stunner.Base.Method.{done}
use stunner.Identity.{fingerprint}
use stunner.Crypto.Primitives.{Primitives, Codec}
use stunner.Crypto.Ratchet.Chain.{Sends, chain_key, message_at, encrypt-Sends}
use stunner.Crypto.Ratchet.Turn.{Ahead, IsNewTo, chain_of, decrypt_turns}
use stunner.Crypto.Ratchet.{
  Ratchet, WireMessage, kdf_root, dh, new_ratchet_initiator, new_ratchet_responder, encrypt,
  decrypt, advance_sending,
}
use stunner.Crypto.X3dh.{PreKeys, Initiation, bundle_of, x3dh_initiate, x3dh_respond}
use stunner.Crypto.X3dh.Agreement.{IsProper, x3dh_agree}
use stunner.Crypto.Session.{
  MemStore, Session, Handshake, associated_data, initiate, accept, initiated, accepted,
  handshake_of, add_session, session_encrypt, session_decrypt, put_back, get_session,
  get_elem?-append_last,
}

-- Both sides bind the same data into every message.
pub associated_data_comm : (a b : Bytes) → associated_data a b ≡ associated_data b a
unfolding associated_data
associated_data_comm a b = sorted_append_comm a b

module _ (p : Primitives) where
  -- The initiator's ratchet.
  unfoldable pub initiator_ratchet : Bytes → Bytes → Bytes → Bytes → Bytes → Ratchet
  initiator_ratchet fresh sk remote ad out = record {
    dhs = fresh;
    dhr = some remote;
    rk = (kdf_root p sk out).0;
    cks = some (kdf_root p sk out).1;
    ckr = none;
    ns = 0;
    nr = 0;
    pn = 0;
    skipped = [];
    ad = ad;
  }

  pub new_ratchet_initiator_lem :
      (fresh sk remote ad out : Bytes)
      → length remote ≡ 32
      → p.ecdh fresh remote ≡ some out
      → new_ratchet_initiator p (ok fresh) sk remote ad
        ≡ ok (initiator_ratchet fresh sk remote ad out)
  unfolding new_ratchet_initiator initiator_ratchet dh
  new_ratchet_initiator_lem fresh sk remote ad out n e = ground arith

  -- The two ratchets of a handshake: the initiator is ahead, at the start of its first chain.
  pub established-Ahead :
      (fresh sk pre ad out : Bytes)
      → length fresh ≡ 32
      → length pre ≡ 32
      → p.ecdh fresh (p.public pre) ≡ some out
      → let a = initiator_ratchet fresh sk (p.public pre) ad out in
        Ahead p (chain_of p a (kdf_root p sk out).1) a (new_ratchet_responder p sk pre ad)
        × Sends p (chain_of p a (kdf_root p sk out).1) 0 a
        × IsNewTo (p.public fresh) 0 (new_ratchet_responder p sk pre ad)
  unfolding initiator_ratchet new_ratchet_responder chain_of chain_key lookup
  established-Ahead fresh sk pre ad out n m e = (
    record {
      length_a = n;
      length_b = m;
      key = refl;
      remote = refl;
      out = out;
      shared = e;
      root = refl;
      start = refl;
      data_a = refl;
      data_b = refl;
    },
    record { key = refl; count = refl; public = refl; previous = refl; data_bound = refl },
    (inl (refl, refl), λ i hi. refl),
  )

-- The first message of an initiator is decrypted by the responder with the same secret and data.
first_message :
    (p : Primitives) (c : Codec WireMessage) (fresh sk pre ad next m : Bytes)
    → length fresh ≡ 32
    → length pre ≡ 32
    → length next ≡ 32
    → (a a' b' : Ratchet) × (w : Bytes) × (new_ratchet_initiator p (ok fresh) sk (p.public pre) ad
        ≡ ok a)
      × (encrypt p c m a ≡ done w a')
      × (decrypt p c (ok next) w (new_ratchet_responder p sk pre ad) ≡ done m b')
unfolding chain_of initiator_ratchet
first_message p c fresh sk pre ad next m n n' n'' =
    let (out, d) = p.ecdh_public fresh pre n n' in
    let (out', d') = p.ecdh_public next fresh n'' n in
    let a = initiator_ratchet p fresh sk (p.public pre) ad out in
    let ch = chain_of p a (kdf_root p sk out).1 in
    let (ahead, sends, new) = established-Ahead p fresh sk pre ad out n n' d in
    let (b', delivered, _, _, _, _) =
      decrypt_turns p c ch next out' 0 m a (new_ratchet_responder p sk pre ad)
        (p.bytes-public fresh) n'' d' (omega arith) ahead new in
    (
      a,
      advance_sending p c a,
      b',
      message_at p c ch 0 m,
      new_ratchet_initiator_lem p fresh sk (p.public pre) ad out (p.length-public pre) d,
      encrypt-Sends p c ch 0 a m sends,
      delivered,
    )

module _ (p : Primitives) (c : Codec WireMessage) (s : Session) (st : MemStore) where
  -- The methods of a session that has just been added.
  encrypt_added :
      (m w : Bytes) (r : Ratchet)
      → encrypt p c m s.r ≡ done w r
      → session_encrypt p c (length st.heap) m (add_session s st)
        ≡ put_back (length st.heap) s (add_session s st) (done w r)
  unfolding session_encrypt add_session
  encrypt_added m w r e = rw (get_elem?-append_last st.heap s, e, session_encrypt)

  decrypt_added :
      (fresh : Result Bytes) (m w : Bytes) (r : Ratchet)
      → decrypt p c fresh w s.r ≡ done m r
      → session_decrypt p c (length st.heap) fresh w (add_session s st)
        ≡ put_back (length st.heap) s (add_session s st) (done m r)
  unfolding session_decrypt add_session
  decrypt_added fresh m w r e = rw (get_elem?-append_last st.heap s, e, session_decrypt)

  get_added : get_session s.peer_fp (add_session s st) ≡ some (length st.heap)
  unfolding get_session add_session
  get_added = lookup-insert_self s.peer_fp (length st.heap) st.sessions

module _ (p : Primitives) (k : PreKeys) where
  pub initiate_lem :
      (st : MemStore) (g : Result Bytes) (i : Initiation) (fresh : Bytes) (r : Ratchet)
      → x3dh_initiate p g st.local (bundle_of p k) ≡ ok i
      → new_ratchet_initiator p
          (ok fresh)
          i.sk
          (p.public k.signed_pre)
          (associated_data st.local.signing_pub k.id.signing_pub)
        ≡ ok r
      → initiate p g (ok fresh) (bundle_of p k) st
        ≡ done
            (length st.heap, handshake_of p st.local i)
            (add_session (initiated p st (bundle_of p k) r) st)
  unfolding initiate bundle_of
  initiate_lem st g i fresh r e d = ground arith

  pub accept_lem :
      (st : MemStore) (hs : Handshake) (sk : Bytes)
      → st.pre ≡ some k
      → x3dh_respond p k hs.identity_dh hs.ephemeral hs.used_otp ≡ ok sk
      → accept p hs st ≡ done (length st.heap) (add_session (accepted p st k hs sk) st)
  unfolding accept
  accept_lem st hs sk e d = ground arith

-- From the handshake to the first message. Bob's store has proper prekeys of his identity key, and
-- all the private keys have 32 bytes. Alice initiates with Bob's published bundle, Bob accepts the
-- handshake that she gets, Alice encrypts and Bob decrypts: the calls all succeed, the text comes
-- out as it went in, and each store finds the session under the other's fingerprint.
pub session_delivers :
    (p : Primitives) (c : Codec WireMessage) (alice bob : MemStore) (k : PreKeys)
    (eph ratchet_key fresh m : Bytes)
    → bob.pre ≡ some k
    → bob.local.signing_pub ≡ k.id.signing_pub
    → IsProper p k
    → length alice.local.agreement_priv ≡ 32
    → length eph ≡ 32
    → length ratchet_key ≡ 32
    → length fresh ≡ 32
    → (h g : ℕ) × (hs : Handshake) × (w : Bytes) × (alice' alice'' bob' bob'' : MemStore)
      × (initiate p (ok eph) (ok ratchet_key) (bundle_of p k) alice ≡ done (h, hs) alice')
      × (accept p hs bob ≡ done g bob')
      × (session_encrypt p c h m alice' ≡ done w alice'')
      × (session_decrypt p c g (ok fresh) w bob' ≡ done m bob'')
      × (get_session (fingerprint p bob.local.signing_pub) alice' ≡ some h)
      × (get_session (fingerprint p alice.local.signing_pub) bob' ≡ some g)
unfolding put_back initiated accepted handshake_of bundle_of
session_delivers p c alice bob k eph ratchet_key fresh m has same v na ne nr nf =
    let (i, x, pub_eph, y) = x3dh_agree p alice.local k eph na ne v in
    let ad = associated_data alice.local.signing_pub k.id.signing_pub in
    let (a, a', b', w, made, sent, received) =
      first_message p c ratchet_key i.sk k.signed_pre ad fresh m nr v.length_signed_pre nf in
    let s = initiated p alice (bundle_of p k) a in
    let hs = handshake_of p alice.local i in
    let t = accepted p bob k hs i.sk in
    (
      length alice.heap,
      length bob.heap,
      hs,
      w,
      add_session s alice,
      _,
      add_session t bob,
      _,
      initiate_lem p k alice (ok eph) i ratchet_key a x made,
      accept_lem p k bob hs i.sk has y,
      encrypt_added p c s alice m w a' sent,
      decrypt_added p c t bob (ok fresh) m w b' (
          subst
            (λ d.
              decrypt p c (ok fresh) w (new_ratchet_responder p i.sk k.signed_pre d) ≡ done m b')
            same_data received),
      rw same (get_added p c s alice),
      get_added p c t bob,
    )
  where
    same_data :
        associated_data alice.local.signing_pub k.id.signing_pub
        ≡ associated_data bob.local.signing_pub alice.local.signing_pub
    same_data = rw same (associated_data_comm alice.local.signing_pub k.id.signing_pub)
