-- ===== src/Crypto/Session.antt =====
-- core/pkg/crypto/session.go: sessions and the in-memory session store. A `*ratchetSession` is a
-- place in `heap`, so the map and every holder of the session see one state; the locks of the
-- source make each method one step.
pub mod Established
pub mod Stream
use stunner.Base.{
  zero, ◌≡◌, refl, ℕ, suc, Bool, Option, none, some, List, [], ◌∷◌, ◌++◌, length, if◌then◌else◌,
}
use stunner.Base.Bytes.{Bytes, bytes_le, sorted_append}
use stunner.Base.Eq.{bytes_eq_instance}
use stunner.Base.Dict.{Dict, lookup, insert}
use stunner.Base.Result.{Error, Result, ok, err, no_prekeys, nil_pointer}
use stunner.Base.Method.{Outcome, Method, done, failed}
use stunner.Identity.{Identity, agreement_pub, fingerprint}
use stunner.Crypto.Primitives.{Primitives, Codec}
use stunner.Crypto.Ratchet.{
  Ratchet, WireMessage, new_ratchet_initiator, new_ratchet_responder, encrypt, decrypt,
}
use stunner.Crypto.X3dh.{PreKeys, PreKeyBundle, Initiation, x3dh_initiate, x3dh_respond}

pub record Handshake : Type 0 where
  pub identity_sign : Bytes
  pub identity_dh : Bytes
  pub ephemeral : Bytes
  pub used_otp : Bool

-- ratchetSession
pub record Session : Type 0 where
  pub r : Ratchet
  pub peer_fp : Bytes
  pub peer_sig : Bytes

pub record MemStore : Type 0 where
  pub local : Identity
  pub pre : Option PreKeys
  pub sessions : Dict Bytes ℕ
  pub heap : List Session

-- The session at a place, and the heap with another one in its place.
module _ {ℓ} {A : Type ℓ} where
  abbrev pub get_elem? : List A → ℕ → Option A
  get_elem? [] i = none
  get_elem? (x ∷ xs) zero = some x
  get_elem? (x ∷ xs) (suc i) = get_elem? xs i

  abbrev pub set : List A → ℕ → A → List A
  set [] i v = []
  set (x ∷ xs) zero v = v ∷ xs
  set (x ∷ xs) (suc i) v = x ∷ set xs i v

-- associatedData
unfoldable pub associated_data : Bytes → Bytes → Bytes
associated_data a b = sorted_append a b

unfoldable pub new_mem_store : Identity → Option PreKeys → MemStore
new_mem_store local pre = record { local = local; pre = pre; sessions = []; heap = [] }

-- `Get`
unfoldable pub get_session : Bytes → MemStore → Option ℕ
get_session peer_fp m = lookup peer_fp m.sessions

-- `m.sessions[s.peerFP] = s`, for a session that has just been made.
unfoldable pub add_session : Session → MemStore → MemStore
add_session s m = record m {
  sessions = insert s.peer_fp (length m.heap) m.sessions;
  heap = m.heap ++ s ∷ [];
}

module _ (p : Primitives) where
  unfoldable pub initiated : MemStore → PreKeyBundle → Ratchet → Session
  initiated m bundle r = record {
    r = r;
    peer_fp = fingerprint p bundle.identity_sign;
    peer_sig = bundle.identity_sign;
  }

  unfoldable pub handshake_of : Identity → Initiation → Handshake
  handshake_of local i = record {
    identity_sign = local.signing_pub;
    identity_dh = agreement_pub p local;
    ephemeral = i.eph_pub;
    used_otp = i.used_otp;
  }

  -- `Initiate`; `g` and `g'` are what its two calls of GenerateKey return.
  unfoldable pub initiate :
      Result Bytes → Result Bytes → PreKeyBundle → Method MemStore (ℕ × Handshake)
  initiate g g' bundle m = elim (x3dh_initiate p g m.local bundle) [
    | err e ↦ failed e m
    | ok i ↦
        elim (new_ratchet_initiator p g' i.sk bundle.signed_pre_key
          (associated_data m.local.signing_pub bundle.identity_sign)) [
            | err e ↦ failed e m
            | ok r ↦
                done (length m.heap, handshake_of m.local i) (add_session (initiated m bundle r) m)
          ]
  ]

  unfoldable pub accepted : MemStore → PreKeys → Handshake → Bytes → Session
  accepted m pre hs sk = record {
    r =
        new_ratchet_responder p sk pre.signed_pre
          (associated_data m.local.signing_pub hs.identity_sign);
    peer_fp = fingerprint p hs.identity_sign;
    peer_sig = hs.identity_sign;
  }

  -- `Accept`
  unfoldable pub accept : Handshake → Method MemStore ℕ
  accept hs m = elim m.pre [
    | none ↦ failed no_prekeys m
    | some pre ↦ elim (x3dh_respond p pre hs.identity_dh hs.ephemeral hs.used_otp) [
      | err e ↦ failed e m
      | ok sk ↦ done (length m.heap) (add_session (accepted m pre hs sk) m)
    ]
  ]

-- A method of the session `s` at place `h`, run on the store that holds it.
unfoldable pub put_back {ℓ} :
    {A : Type ℓ} → ℕ → Session → MemStore → Outcome Ratchet A → Outcome MemStore A
put_back h s m (done a r) = done a (record m { heap = set m.heap h (record s { r = r }) })
put_back h s m (failed e r) = failed e (record m { heap = set m.heap h (record s { r = r }) })

module _ (p : Primitives) (c : Codec WireMessage) where
  -- `Encrypt` of the session at a place of the heap. A place that is none is a nil pointer.
  unfoldable pub session_encrypt : ℕ → Bytes → Method MemStore Bytes
  session_encrypt h plaintext m = elim (get_elem? m.heap h) [
    | none ↦ failed nil_pointer m
    | some s ↦ put_back h s m (encrypt p c plaintext s.r)
  ]

  -- `Decrypt`
  unfoldable pub session_decrypt : ℕ → Result Bytes → Bytes → Method MemStore Bytes
  session_decrypt h fresh wire m = elim (get_elem? m.heap h) [
    | none ↦ failed nil_pointer m
    | some s ↦ put_back h s m (decrypt p c fresh wire s.r)
  ]

pub get_elem?-append_last {ℓ} :
    {A : Type ℓ} (xs : List A) (x : A) → get_elem? (xs ++ x ∷ []) (length xs) ≡ some x
get_elem?-append_last [] x = refl
get_elem?-append_last (y ∷ xs) x = get_elem?-append_last xs x
