-- ===== src/Node/Establish.antt =====
-- core/pkg/node/live.go: the interactive handshake over a pipe.
use stunner.Base.{◌≡◌, refl, ap, ◌∙◌, Bool, false, [], ◌∷◌, length}
use stunner.Base.Bytes.{Bytes}
use stunner.Base.Result.{Result, ok, no_initiator_handshake}
use stunner.Base.Method.{Outcome, done, state_of, >>=-done}
use stunner.Identity.{fingerprint}
use stunner.Crypto.Primitives.{Primitives, Codec}
use stunner.Crypto.Session.{Handshake, get_elem?-append_last, add_session}
use stunner.Crypto.Session.Stream.{Established, SendsOn, ReadsOn}
use stunner.Crypto.X3dh.{bundle_of}
use stunner.Messaging.{Frame, bundle_frame, handshake_frame}
use stunner.Transport.{
  Pipe, end_a, end_b, new_pipe, pipe_conn, pipe_send, pipe_recv, put_unless, refusal, out_of,
  set_out, take_first, in_of, set_in,
}
use stunner.Node.{
  Node, Link, bundle, handshake_initiator, handshake_responder, send_bundle, take_handshake,
  on_wire, with_wire,
}
use stunner.Node.Steps.{send_frame_ok, start_session_ok, handshake_initiator_ok, take_handshake_ok}

-- A node at one end of a new pipe.
abbrev pub on_new_pipe : {D : Type 0} → Node Pipe D → Node Pipe D
on_new_pipe n = record n { wire = new_pipe }

-- What the initiator does with the connection while the responder waits.
abbrev pub answer_of :
    {D : Type 0}
    → Primitives
    → Codec Frame
    → Bool
    → Result Bytes
    → Result Bytes
    → Bytes
    → Node Pipe D
    → Pipe
    → Pipe
answer_of p f d g g' key n w =
    (state_of (handshake_initiator p f (pipe_conn d end_a) g g' key (record n { wire = w }))).wire

-- The pipe with the responder's bundle in it, and with the handshake.
abbrev pub with_bundle : {B : Type 0} → Primitives → Codec Frame → Node Pipe B → Pipe
with_bundle p f bob = record {
  a2b = [];
  b2a = f.marshal (bundle_frame (bundle p bob)) ∷ [];
  is_closed = false;
}

abbrev pub with_handshake : Codec Frame → Handshake → Pipe
with_handshake f hs = record {
  a2b = f.marshal (handshake_frame hs []) ∷ [];
  b2a = [];
  is_closed = false;
}

module _ {A B : Type 0} (p : Primitives) (f : Codec Frame) (d d' : Bool) (alice : Node Pipe A)
    (bob : Node Pipe B) where
  send_bundle_ok :
      send_bundle p f (pipe_conn d' end_b) (on_new_pipe bob)
      ≡ done tt (record bob { wire = with_bundle p f bob })
  unfolding send_bundle pipe_conn pipe_send put_unless refusal out_of set_out new_pipe bundle
  send_bundle_ok =
      send_frame_ok f (pipe_conn d' end_b) (on_new_pipe bob) (bundle_frame (bundle p bob)) _ refl

  module _ (eph ratchet_key k : Bytes)
      (est : Established p alice.sessions bob.sessions bob.account.pre_keys eph ratchet_key k) where
    our_link : Link
    our_link = record {
      session = length alice.sessions.heap;
      peer_fp = est.ours.peer_fp;
      peer_key = bob.account.pre_keys.id.signing_pub;
    }

    their_link : Link
    their_link = record {
      session = length bob.sessions.heap;
      peer_fp = est.theirs.peer_fp;
      peer_key = est.handshake.identity_sign;
    }

    initiates :
        handshake_initiator p f
          (pipe_conn d end_a)
          (ok eph)
          (ok ratchet_key)
          bob.account.pre_keys.id.signing_pub
          (record alice { wire = with_bundle p f bob })
        ≡ done our_link (record alice {
          sessions = add_session est.ours alice.sessions;
          wire = with_handshake f est.handshake;
        })
    unfolding our_link pipe_conn pipe_recv take_first in_of set_in pipe_send put_unless refusal
        out_of set_out new_pipe bundle bundle_of add_session
    initiates =
        handshake_initiator_ok p f (pipe_conn d end_a) (record alice { wire = with_bundle p f bob })
          (ok eph) (ok ratchet_key) (bundle p bob) new_pipe refl
        ∙ start_session_ok p f (pipe_conn d end_a) (on_new_pipe alice) (ok eph) (ok ratchet_key)
            (bundle p bob) bob.account.pre_keys.id.signing_pub (length alice.sessions.heap)
            est.handshake (add_session est.ours alice.sessions) est.ours
            (with_handshake f est.handshake) est.initiates refl
            (get_elem?-append_last alice.sessions.heap est.ours)

    accepts :
        take_handshake p f
          (pipe_conn d' end_b)
          no_initiator_handshake
          (record bob { wire = with_handshake f est.handshake })
        ≡ done their_link
            (record bob { sessions = add_session est.theirs bob.sessions; wire = new_pipe })
    unfolding their_link pipe_conn pipe_recv take_first in_of set_in add_session new_pipe
    accepts =
        take_handshake_ok p f (pipe_conn d' end_b)
          (record bob { wire = with_handshake f est.handshake }) no_initiator_handshake
          (length bob.sessions.heap) est.handshake [] (add_session est.theirs bob.sessions)
          est.theirs new_pipe refl est.accepts (get_elem?-append_last bob.sessions.heap est.theirs)

    responds :
        handshake_responder p f
          (pipe_conn d' end_b)
          (answer_of p f d (ok eph) (ok ratchet_key) bob.account.pre_keys.id.signing_pub alice)
          (on_new_pipe bob)
        ≡ done their_link
            (record bob { sessions = add_session est.theirs bob.sessions; wire = new_pipe })
    unfolding handshake_responder on_wire with_wire
    responds =
        >>=-done (send_bundle p f (pipe_conn d' end_b)) _ send_bundle_ok
        ∙ ap
            (λ (o : Outcome (Node Pipe A) Link).
              take_handshake p f (pipe_conn d' end_b) no_initiator_handshake
                (record bob { wire = (state_of o).wire }))
            initiates
        ∙ accepts

  -- What the two sides have after the handshake.
  pub record Linked (eph ratchet_key k : Bytes) : Type 0 where
    pub est : Established p alice.sessions bob.sessions bob.account.pre_keys eph ratchet_key k
    pub ours : Link
    pub theirs : Link
    pub alice' : Node Pipe A
    pub bob' : Node Pipe B
    pub initiates :
        handshake_initiator p f
          (pipe_conn d end_a)
          (ok eph)
          (ok ratchet_key)
          bob.account.pre_keys.id.signing_pub
          (record alice { wire = with_bundle p f bob })
        ≡ done ours alice'
    pub responds :
        handshake_responder p f
          (pipe_conn d' end_b)
          (answer_of p f d (ok eph) (ok ratchet_key) bob.account.pre_keys.id.signing_pub alice)
          (on_new_pipe bob)
        ≡ done theirs bob'
    pub sends : SendsOn p est.chain k ours.session 0 alice'.sessions
    pub reads : ReadsOn p est.chain k theirs.session 0 bob'.sessions
    pub clear : bob'.wire ≡ new_pipe
    pub our_fp : ours.peer_fp ≡ fingerprint p bob.account.pre_keys.id.signing_pub
    pub their_fp : theirs.peer_fp ≡ fingerprint p alice.sessions.local.signing_pub
    pub our_key : ours.peer_key ≡ bob.account.pre_keys.id.signing_pub
    pub their_key : theirs.peer_key ≡ alice.sessions.local.signing_pub

  pub link_up :
      (eph ratchet_key k : Bytes)
      → Established p alice.sessions bob.sessions bob.account.pre_keys eph ratchet_key k
      → Linked eph ratchet_key k
  unfolding our_link their_link
  link_up eph ratchet_key k est = record {
    est = est;
    ours = our_link eph ratchet_key k est;
    theirs = their_link eph ratchet_key k est;
    alice' = _;
    bob' = _;
    initiates = initiates eph ratchet_key k est;
    responds = responds eph ratchet_key k est;
    sends = est.sends;
    reads = est.reads;
    clear = refl;
    our_fp = est.names_them;
    their_fp = est.names_us;
    our_key = refl;
    their_key = est.from_us;
  }
