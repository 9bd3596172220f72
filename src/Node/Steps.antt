-- ===== src/Node/Steps.antt =====
-- The methods of a node where each call in them succeeds.
use stunner.Base.{ℕ, ◌≡◌, refl, some, [], arith}
use stunner.Base.Bytes.{Bytes}
use stunner.Base.Eq.{bytes_eq_refl}
use stunner.Base.Result.{Error, Result, ok}
use stunner.Base.Method.{done}
use stunner.Crypto.Primitives.{Primitives, Codec}
use stunner.Crypto.Ratchet.{WireMessage}
use stunner.Crypto.Session.{
  MemStore, Session, Handshake, initiate, accept, session_encrypt, session_decrypt, get_elem?,
}
use stunner.Crypto.X3dh.{PreKeyBundle}
use stunner.Messaging.{
  Json, Envelope, Frame, encode_envelope, decode_envelope, encode_frame, decode_frame, bundle_frame,
  handshake_frame, payload_frame,
}
use stunner.Transport.{Conn}
use stunner.Node.{
  Node, Link, with_sessions, with_wire, on_sessions, on_wire, link_to, send_frame, recv_frame,
  start_session, take_handshake, handshake_initiator, encrypt_send, receive,
}

module _ {W D : Type 0} (f : Codec Frame) (conn : Conn W) (n : Node W D) where
  pub send_frame_ok :
      (x : Frame) (w : W)
      → conn.send (f.marshal x) n.wire ≡ done tt w
      → send_frame f conn x n ≡ done tt (record n { wire = w })
  unfolding send_frame on_wire encode_frame with_wire
  send_frame_ok x w e = rw (e, with_wire) refl

  pub recv_frame_ok :
      (x : Frame) (w : W)
      → conn.recv n.wire ≡ done (f.marshal x) w
      → recv_frame f conn n ≡ done x (record n { wire = w })
  unfolding recv_frame on_wire decode_frame with_wire
  recv_frame_ok x w e = ground (arith, e, f.unmarshal-marshal x)

module _ {W D : Type 0} (p : Primitives) (f : Codec Frame) (conn : Conn W) (n : Node W D) where
  pub start_session_ok :
      (g g' : Result Bytes) (b : PreKeyBundle) (key : Bytes) (h : ℕ) (hs : Handshake) (m : MemStore)
      (s : Session) (w : W)
      → initiate p g g' b n.sessions ≡ done (h, hs) m
      → conn.send (f.marshal (handshake_frame hs [])) n.wire ≡ done tt w
      → get_elem? m.heap h ≡ some s
      → start_session p f conn g g' b key n
        ≡ done
            (record { session = h; peer_fp = s.peer_fp; peer_key = key })
            (record n { sessions = m; wire = w })
  unfolding start_session on_sessions with_sessions link_to send_frame on_wire encode_frame
      with_wire
  start_session_ok g g' b key h hs m s w e d i = ground (arith, e, d, i)

  pub handshake_initiator_ok :
      (g g' : Result Bytes) (b : PreKeyBundle) (w : W)
      → conn.recv n.wire ≡ done (f.marshal (bundle_frame b)) w
      → handshake_initiator p f conn g g' b.identity_sign n
        ≡ start_session p f conn g g' b b.identity_sign (record n { wire = w })
  unfolding handshake_initiator
  handshake_initiator_ok g g' b w e =
      ground (arith, recv_frame_ok f conn n (bundle_frame b) w e, bytes_eq_refl b.identity_sign)

  pub take_handshake_ok :
      (e : Error) (h : ℕ) (hs : Handshake) (payload : Bytes) (m : MemStore) (s : Session) (w : W)
      → conn.recv n.wire ≡ done (f.marshal (handshake_frame hs payload)) w
      → accept p hs n.sessions ≡ done h m
      → get_elem? m.heap h ≡ some s
      → take_handshake p f conn e n
        ≡ done
            (record { session = h; peer_fp = s.peer_fp; peer_key = hs.identity_sign })
            (record n { sessions = m; wire = w })
  unfolding take_handshake on_sessions with_sessions link_to
  take_handshake_ok e h hs payload m s w r d i =
      ground (arith, recv_frame_ok f conn n (handshake_frame hs payload) w r, d, i)

module _ {W D : Type 0} (p : Primitives) (c : Codec WireMessage) (f : Codec Frame)
    (j : Json Envelope) (conn : Conn W) (n : Node W D) where
  pub encrypt_send_ok :
      (l : Link) (env : Envelope) (pt ct : Bytes) (m : MemStore) (w : W)
      → j.marshal env ≡ ok pt
      → session_encrypt p c l.session pt n.sessions ≡ done ct m
      → conn.send (f.marshal (payload_frame ct)) n.wire ≡ done tt w
      → encrypt_send p c f j conn l env n ≡ done tt (record n { sessions = m; wire = w })
  unfolding encrypt_send on_sessions with_sessions send_frame on_wire encode_frame with_wire
      encode_envelope
  encrypt_send_ok l env pt ct m w e d i = ground (arith, e, d, i)

  pub receive_ok :
      (fresh : Result Bytes) (l : Link) (env : Envelope) (pt ct : Bytes) (m : MemStore) (w : W)
      → conn.recv n.wire ≡ done (f.marshal (payload_frame ct)) w
      → session_decrypt p c l.session fresh ct n.sessions ≡ done pt m
      → j.unmarshal pt ≡ some env
      → receive p c f j conn fresh l n ≡ done env (record n { sessions = m; wire = w })
  unfolding receive on_sessions with_sessions decode_envelope
  receive_ok fresh l env pt ct m w e d i =
      ground (arith, recv_frame_ok f conn n (payload_frame ct) w e, d, i)
