-- ===== src/Crypto/Session/Stream.antt =====
-- A session as a stream: after a handshake, every message that one side encrypts is decrypted by
-- the other, in order, as long as the counter lasts.
use stunner.Base.{
  ℕ, zero, suc, ◌+◌, ◌^◌, ◌<◌, ◌≡◌, refl, subst, inl, inr, ◌⊎◌, arith, false, some, length, ltb,
  List, [], ◌∷◌,
}
use stunner.Base.Bytes.{Bytes, All, IsByte}
use stunner.Base.Result.{Result, ok}
use stunner.Base.Method.{done}
use stunner.Identity.{fingerprint}
use stunner.Crypto.Primitives.{Primitives, Codec}
use stunner.Crypto.Ratchet.{
  Ratchet, WireMessage, kdf_root, new_ratchet_responder, decrypt, advance_sending,
}
use stunner.Crypto.Ratchet.Chain.{Chain, Sends, message_at, encrypt-Sends, advance-Sends}
use stunner.Crypto.Ratchet.Delivery.{Receives, mark, take_new}
use stunner.Crypto.Ratchet.Turn.{Ahead, IsNewTo, chain_of, decrypt_turns}
use stunner.Crypto.X3dh.{PreKeys, bundle_of}
use stunner.Crypto.X3dh.Agreement.{IsProper, x3dh_agree}
use stunner.Crypto.Session.{
  MemStore, Session, Handshake, associated_data, initiate, accept, initiated, accepted,
  handshake_of, add_session, session_encrypt, session_decrypt, put_back, get_elem?, set,
  get_elem?-append_last,
}
use stunner.Crypto.Session.Established.{
  initiator_ratchet, new_ratchet_initiator_lem, established-Ahead, initiate_lem, accept_lem,
  associated_data_comm,
}

module _ (p : Primitives) (ch : Chain) (k : Bytes) where
  -- `b` reads the chain from counter `n` on; its first message turns the ratchet to the key `k`.
  abbrev pub Reads : ℕ → Ratchet → Type 0
  Reads n b =
      ((n ≡ 0)
        × (a : Ratchet) × Ahead p ch a b
        × IsNewTo ch.dh ch.pn b
        × ((out : Bytes) × (p.ecdh k ch.dh ≡ some out)))
      ⊎ (Receives p ch (λ j. ltb j n) b × (b.nr ≡ n))

  Receives_upto :
      (n : ℕ) (b : Ratchet)
      → Receives p ch (mark n (λ j. ltb j n)) b
      → Receives p ch (λ j. ltb j (suc n)) b
  Receives_upto n b v = record {
    key = v.key;
    remote = v.remote;
    data_bound = v.data_bound;
    pending = λ i h new. v.pending i h (ground arith);
  }

  Receives_first :
      (b : Ratchet) → Receives p ch (mark 0 (λ _. false)) b → Receives p ch (λ j. ltb j 1) b
  Receives_first b v = record {
    key = v.key;
    remote = v.remote;
    data_bound = v.data_bound;
    pending = λ i h new. v.pending i h (ground arith);
  }

  module _ (c : Codec WireMessage) (bytes : All IsByte ch.dh) (length_k : length k ≡ 32) where
    read_first :
        (m : Bytes) (a b : Ratchet) (out : Bytes)
        → Ahead p ch a b
        → IsNewTo ch.dh ch.pn b
        → p.ecdh k ch.dh ≡ some out
        → (b' : Ratchet) × (decrypt p c (ok k) (message_at p c ch 0 m) b ≡ done m b') × Reads 1 b'
    read_first m a b out ahead new e =
        let (b', d, v, _, _, count) =
          decrypt_turns p c ch k out 0 m a b bytes length_k e (omega arith) ahead new in
        (b', d, inr (Receives_first b' v, omega arith))

    read_next :
        (n : ℕ) (m : Bytes) (fresh : Result Bytes) (b : Ratchet)
        → n + 1002 < 2 ^ 32
        → (n ≡ 0 → fresh ≡ ok k)
        → Reads n b
        → (b' : Ratchet) × (decrypt p c fresh (message_at p c ch n m) b ≡ done m b')
          × Reads (suc n) b'
    read_next n m fresh b room drawn (inl (first, a, ahead, new, (out, e))) =
        rw (drawn first, first) (read_first m a b out ahead new e)
    read_next n m fresh b room drawn (inr (v, here)) =
        let (b', d, v', count) =
          take_new p c ch bytes fresh (λ j. ltb j n) n m b (omega arith) (omega arith) (omega arith)
            (ground arith) v in
        (b', d, inr (Receives_upto n b' v', omega arith))

-- The identity and the prekeys of a store stay.
abbrev pub Keeps : MemStore → MemStore → Type 0
Keeps m m' = (m'.local ≡ m.local) × (m'.pre ≡ m.pre)

get_elem?-set :
    (xs : List Session) (i : ℕ) (s t : Session)
    → get_elem? xs i ≡ some s
    → get_elem? (set xs i t) i ≡ some t
get_elem?-set [] i s t h = absurd (cc)
get_elem?-set (x ∷ xs) zero s t h = refl
get_elem?-set (x ∷ xs) (suc i) s t h = get_elem?-set xs i s t h

module _ (p : Primitives) (ch : Chain) (k : Bytes) (h : ℕ) where
  -- The session at place `h` sends, or reads, the chain from counter `n` on.
  pub record SendsOn (n : ℕ) (m : MemStore) : Type 0 where
    pub sender : Session
    pub found : get_elem? m.heap h ≡ some sender
    pub sends : Sends p ch n sender.r

  pub record ReadsOn (n : ℕ) (m : MemStore) : Type 0 where
    pub reader : Session
    pub found : get_elem? m.heap h ≡ some reader
    pub reads : Reads p ch k n reader.r

  module _ (c : Codec WireMessage) where
    pub session_encrypt-SendsOn :
        (n : ℕ) (text : Bytes) (m : MemStore)
        → n + 1 < 2 ^ 32
        → SendsOn n m
        → (m' : MemStore) × (session_encrypt p c h text m ≡ done (message_at p c ch n text) m')
          × SendsOn (suc n) m'
          × Keeps m m'
    unfolding session_encrypt put_back
    session_encrypt-SendsOn n text m room v =
        let r' = advance_sending p c v.sender.r in
        (
          record m { heap = set m.heap h (record v.sender { r = r' }) },
          rw (v.found, encrypt-Sends p c ch n v.sender.r text v.sends, session_encrypt) refl,
          record {
            sender = record v.sender { r = r' };
            found = get_elem?-set m.heap h v.sender _ v.found;
            sends = advance-Sends p c ch n v.sender.r room v.sends;
          },
          (refl, refl),
        )

    pub session_decrypt-ReadsOn :
        (n : ℕ) (text : Bytes) (fresh : Result Bytes) (m : MemStore)
        → All IsByte ch.dh
        → length k ≡ 32
        → n + 1002 < 2 ^ 32
        → (n ≡ 0 → fresh ≡ ok k)
        → ReadsOn n m
        → (m' : MemStore) × (session_decrypt p c h fresh (message_at p c ch n text) m
            ≡ done text m')
          × ReadsOn (suc n) m'
          × Keeps m m'
    unfolding session_decrypt put_back
    session_decrypt-ReadsOn n text fresh m bytes len room drawn v =
        let (b', d, v') = read_next p ch k c bytes len n text fresh v.reader.r room drawn v.reads in
        (
          record m { heap = set m.heap h (record v.reader { r = b' }) },
          rw (v.found, d, session_decrypt) refl,
          record {
            reader = record v.reader { r = b' };
            found = get_elem?-set m.heap h v.reader _ v.found;
            reads = v';
          },
          (refl, refl),
        )

-- What a handshake establishes: the calls of both sides, and the stream from the initiator to the
-- responder, who will turn its ratchet to the key `k`.
pub record Established (p : Primitives) (alice bob : MemStore) (prekeys : PreKeys)
    (eph ratchet_key k : Bytes) : Type 0 where
  pub chain : Chain
  pub bytes : All IsByte chain.dh
  pub handshake : Handshake
  pub ours : Session
  pub theirs : Session
  pub initiates :
      initiate p (ok eph) (ok ratchet_key) (bundle_of p prekeys) alice
      ≡ done (length alice.heap, handshake) (add_session ours alice)
  pub accepts : accept p handshake bob ≡ done (length bob.heap) (add_session theirs bob)
  pub sends : SendsOn p chain k (length alice.heap) 0 (add_session ours alice)
  pub reads : ReadsOn p chain k (length bob.heap) 0 (add_session theirs bob)
  pub names_them : ours.peer_fp ≡ fingerprint p prekeys.id.signing_pub
  pub names_us : theirs.peer_fp ≡ fingerprint p alice.local.signing_pub
  pub from_us : handshake.identity_sign ≡ alice.local.signing_pub

pub establish :
    (p : Primitives) (alice bob : MemStore) (prekeys : PreKeys) (eph ratchet_key k : Bytes)
    → bob.pre ≡ some prekeys
    → bob.local.signing_pub ≡ prekeys.id.signing_pub
    → IsProper p prekeys
    → length alice.local.agreement_priv ≡ 32
    → length eph ≡ 32
    → length ratchet_key ≡ 32
    → length k ≡ 32
    → Established p alice bob prekeys eph ratchet_key k
unfolding chain_of initiator_ratchet initiated accepted handshake_of bundle_of add_session
establish p alice bob prekeys eph ratchet_key k has same v na ne nr nk =
    let (i, x, pub_eph, y) = x3dh_agree p alice.local prekeys eph na ne v in
    let ad = associated_data alice.local.signing_pub prekeys.id.signing_pub in
    let (out, d) = p.ecdh_public ratchet_key prekeys.signed_pre nr v.length_signed_pre in
    let (out', d') = p.ecdh_public k ratchet_key nk nr in
    let a = initiator_ratchet p ratchet_key i.sk (p.public prekeys.signed_pre) ad out in
    let ch = chain_of p a (kdf_root p i.sk out).1 in
    let (ahead, sends, new) =
      established-Ahead p ratchet_key i.sk prekeys.signed_pre ad out nr v.length_signed_pre d in
    let made =
      new_ratchet_initiator_lem p ratchet_key i.sk (p.public prekeys.signed_pre) ad out
        (p.length-public prekeys.signed_pre) d in
    let hs = handshake_of p alice.local i in
    let t = accepted p bob prekeys hs i.sk in
    record {
      chain = ch;
      bytes = p.bytes-public ratchet_key;
      handshake = hs;
      ours = initiated p alice (bundle_of p prekeys) a;
      theirs = t;
      initiates = initiate_lem p prekeys alice (ok eph) i ratchet_key a x made;
      accepts = accept_lem p prekeys bob hs i.sk has y;
      sends = record {
        sender = initiated p alice (bundle_of p prekeys) a;
        found = get_elem?-append_last alice.heap _;
        sends = sends;
      };
      reads = record {
        reader = t;
        found = get_elem?-append_last bob.heap _;
        reads =
            subst (λ d. Reads p ch k 0 (new_ratchet_responder p i.sk prekeys.signed_pre d))
              same_data (inl (refl, a, ahead, new, (out', d')));
      };
      names_them = refl;
      names_us = refl;
      from_us = refl;
    }
  where
    same_data :
        associated_data alice.local.signing_pub prekeys.id.signing_pub
        ≡ associated_data bob.local.signing_pub alice.local.signing_pub
    same_data = rw same (associated_data_comm alice.local.signing_pub prekeys.id.signing_pub)
