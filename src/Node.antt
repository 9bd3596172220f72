-- ===== src/Node.antt =====
-- core/pkg/node: a node and its links. A connection is the interface `Conn` of the transport, the
-- signaler and the transport are interfaces of their own, and the message store is `Log`.
pub mod Steps
pub mod Connect
pub mod Establish
pub mod Stream
pub mod Live
pub mod Mail
pub mod File
use stunner.Base.{
  ℕ, Bool, true, false, not, Option, none, some, List, [], ◌∷◌, ◌++◌, ◌||◌, if◌then◌else◌,
}
use stunner.Base.Bytes.{Bytes}
use stunner.Base.Eq.{bytes_eq}
use stunner.Base.Result.{
  Error, Result, ok, err, or_err, check, no_prekeys, nil_pointer, missing_handshake,
  no_initiator_handshake, missing_bundle, identity_mismatch,
}
use stunner.Base.Method.{Outcome, Method, done, failed, ◌>>=◌, ◌>>◌, lift, get, return, state_of}
use stunner.Account.{Account, sessions as account_sessions}
use stunner.Crypto.Primitives.{Primitives, Codec}
use stunner.Crypto.Ratchet.{WireMessage}
use stunner.Crypto.Session.{
  MemStore, Handshake, initiate, accept, session_encrypt, session_decrypt, get_elem?,
}
use stunner.Crypto.X3dh.{PreKeyBundle, bundle_of}
use stunner.Messaging.{
  Json, Envelope, DeliveryState, sent, Frame, TextBody, ReceiptBody, Stamp, new_envelope, new_text,
  new_receipt, encode_envelope, decode_envelope, encode_frame, decode_frame, bundle_frame,
  handshake_frame, payload_frame, type_text, type_file_offer, type_typing,
}
use stunner.Transport.{Conn}

-- storage.Store, as far as a node calls it.
pub record Log (D : Type 0) : Type 0 where
  pub append_message : Bytes → Envelope → DeliveryState → Method D (Unit {0})

-- Node, and the state of the connection that its links write to and read from.
pub record Node (W D : Type 0) : Type 0 where
  pub account : Account
  pub store : Option D
  pub sessions : MemStore
  pub wire : W

-- Link. The session is a place of the session store's heap.
pub record Link : Type 0 where
  pub session : ℕ
  pub peer_fp : Bytes
  pub peer_key : Bytes

module _ {W D : Type 0} where
  -- `New`
  unfoldable pub new_node : Account → Option D → W → Node W D
  new_node account store wire = record {
    account = account;
    store = store;
    sessions = account_sessions account;
    wire = wire;
  }

  unfoldable pub with_sessions : {A : Type 0} → Node W D → Outcome MemStore A → Outcome (Node W D) A
  with_sessions n (done a m) = done a (record n { sessions = m })
  with_sessions n (failed e m) = failed e (record n { sessions = m })

  unfoldable pub with_wire : {A : Type 0} → Node W D → Outcome W A → Outcome (Node W D) A
  with_wire n (done a w) = done a (record n { wire = w })
  with_wire n (failed e w) = failed e (record n { wire = w })

  -- A call of the session store, and one of the connection.
  unfoldable pub on_sessions : {A : Type 0} → Method MemStore A → Method (Node W D) A
  on_sessions m n = with_sessions n (m n.sessions)

  unfoldable pub on_wire : {A : Type 0} → Method W A → Method (Node W D) A
  on_wire m n = with_wire n (m n.wire)

  -- `Bundle`
  unfoldable pub bundle : Primitives → Node W D → PreKeyBundle
  bundle p n = bundle_of p n.account.pre_keys

  -- The link of a session: its fingerprint is the session's.
  unfoldable pub link_to : ℕ → Bytes → Method (Node W D) Link
  link_to h key n = elim (get_elem? n.sessions.heap h) [
    | none ↦ failed nil_pointer n
    | some s ↦ done (record { session = h; peer_fp = s.peer_fp; peer_key = key }) n
  ]

  module _ (f : Codec Frame) (conn : Conn W) where
    unfoldable pub send_frame : Frame → Method (Node W D) (Unit {0})
    send_frame x = on_wire (conn.send (encode_frame f x))

    unfoldable pub recv_frame : Method (Node W D) Frame
    recv_frame = do raw ← on_wire conn.recv; lift (decode_frame f raw)

  module _ (p : Primitives) (f : Codec Frame) (conn : Conn W) where
    -- `Initiate`, and the handshake sent as a frame; `key` is the peer key of the link.
    unfoldable pub start_session :
        Result Bytes → Result Bytes → PreKeyBundle → Bytes → Method (Node W D) Link
    start_session g g' b key = do
      x ← on_sessions (initiate p g g' b)
      send_frame f conn (handshake_frame x.1 [])
      link_to x.0 key

    -- `Dial`
    unfoldable pub dial_peer : Result Bytes → Result Bytes → PreKeyBundle → Method (Node W D) Link
    dial_peer g g' b = start_session g g' b b.identity_sign

    -- What `Accept` and `handshakeResponder` do with a handshake; `e` is the error without one.
    unfoldable pub take_handshake : Error → Method (Node W D) Link
    take_handshake e = do
      frame ← recv_frame f conn
      hs ← lift (or_err frame.handshake e)
      h ← on_sessions (accept p hs)
      link_to h hs.identity_sign

    -- `Accept`
    unfoldable pub accept_peer : Method (Node W D) Link
    accept_peer = take_handshake missing_handshake

    unfoldable pub handshake_initiator :
        Result Bytes → Result Bytes → Bytes → Method (Node W D) Link
    handshake_initiator g g' peer_identity = do
      frame ← recv_frame f conn
      b ← lift (or_err frame.bundle missing_bundle)
      lift (check (bytes_eq b.identity_sign peer_identity) identity_mismatch)
      start_session g g' b peer_identity

    -- The first half of `handshakeResponder`.
    unfoldable pub send_bundle : Method (Node W D) (Unit {0})
    send_bundle n = send_frame f conn (bundle_frame (bundle p n)) n

    -- `peer` is what the other end does with the connection while this one waits.
    unfoldable pub handshake_responder : (W → W) → Method (Node W D) Link
    handshake_responder peer = do
      send_bundle
      on_wire (λ w. done tt (peer w))
      take_handshake no_initiator_handshake

module _ {W D : Type 0} (p : Primitives) (c : Codec WireMessage) (f : Codec Frame)
    (j : Json Envelope) (conn : Conn W) where
  -- encryptSendLocked
  unfoldable pub encrypt_send : Link → Envelope → Method (Node W D) (Unit {0})
  encrypt_send l env = do
    pt ← lift (encode_envelope j env)
    ct ← on_sessions (session_encrypt p c l.session pt)
    send_frame f conn (payload_frame ct)

  unfoldable pub send_typing : Stamp → Link → Bytes → Method (Node W D) (Unit {0})
  send_typing s l conv_id = encrypt_send l (new_envelope s type_typing conv_id [])

  unfoldable pub send_receipt :
      Json ReceiptBody → Stamp → Link → Bytes → Bytes → DeliveryState → Method (Node W D) (Unit {0})
  send_receipt r s l conv_id ref_msg_id state = do
    env ← lift (new_receipt r s conv_id ref_msg_id state)
    encrypt_send l env

  -- `Receive`; `fresh` is what GenerateKey returns, if the ratchet turns.
  unfoldable pub receive : Result Bytes → Link → Method (Node W D) Envelope
  receive fresh l = do
    frame ← recv_frame f conn
    pt ← on_sessions (session_decrypt p c l.session fresh frame.payload)
    lift (decode_envelope j pt)

unfoldable pub persistable : Bytes → Bool
persistable kind = bytes_eq kind type_text || bytes_eq kind type_file_offer

-- `n.Store.AppendMessage`, where there is a store: its error is dropped.
unfoldable pub append_to : {D : Type 0} → Log D → Envelope → Option D → Option D
append_to log env none = none
append_to log env (some d) = some (state_of (log.append_message env.conv_id env sent d))

unfoldable pub persist : {W D : Type 0} → Log D → Envelope → Method (Node W D) (Unit {0})
persist log env n =
    done tt
      (record n { store = if persistable env.kind then append_to log env n.store else n.store })

module _ {W D : Type 0} (p : Primitives) (c : Codec WireMessage) (f : Codec Frame)
    (j : Json Envelope) (conn : Conn W) (log : Log D) where
  -- `SendEnvelope`, and sendEnvelopeLocked.
  unfoldable pub send_envelope : Link → Envelope → Method (Node W D) (Unit {0})
  send_envelope l env = encrypt_send p c f j conn l env >> persist log env

  -- `SendText`: an error stands for the pair of the envelope and the error.
  unfoldable pub send_text :
      Json TextBody → Stamp → Link → Bytes → Bytes → Method (Node W D) Envelope
  send_text t s l conv_id text = do
    env ← lift (new_text t s conv_id text [])
    send_envelope l env
    return env
