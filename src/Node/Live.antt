-- ===== src/Node/Live.antt =====
-- core/pkg/node/live.go: two nodes that connect over a pipe and exchange envelopes.
use stunner.Base.{ℕ, ◌≤◌, ◌≡◌, refl, sym, ap, ◌∙◌, Bool, true, some, List, [], length, arith}
use stunner.Base.Bytes.{Bytes, All}
use stunner.Base.Result.{Result, ok}
use stunner.Base.Method.{done}
use stunner.Identity.{fingerprint}
use stunner.Crypto.Primitives.{Primitives, Codec}
use stunner.Crypto.Ratchet.{WireMessage}
use stunner.Crypto.Session.Stream.{establish}
use stunner.Crypto.X3dh.Agreement.{IsProper}
use stunner.Messaging.{Json, Envelope, Frame}
use stunner.Transport.{Pipe, end_a, end_b, new_pipe, pipe_conn, set_out}
use stunner.Transport.Fifo.{other_end}
use stunner.Node.{Log, Node, Link, handshake_initiator, handshake_responder}
use stunner.Node.Establish.{Linked, link_up, on_new_pipe, with_bundle, answer_of}
use stunner.Node.Stream.{
  fits-Texts, length-Texts, send_each, receive_each, send_each-Sent, receive_each-Awaits, recorded,
  append_nil,
}

module _ {A B : Type 0} (p : Primitives) (c : Codec WireMessage) (f : Codec Frame)
    (j : Json Envelope) (log : Log A) (d d' : Bool) (alice : Node Pipe A) (bob : Node Pipe B)
    (eph ratchet_key : Bytes) (fresh : ℕ → Result Bytes) (k : Bytes) (length_k : length k ≡ 32)
    (drawn : fresh 0 ≡ ok k) (v : Linked p f d d' alice bob eph ratchet_key k) where
  -- Alice's envelopes go over the link.
  pub talk :
      (envs : List Envelope)
      → All (λ env. j.fits env ≡ true) envs
      → length envs ≤ 64
      → (a : Node Pipe A) × (b : Node Pipe B) × (send_each p c f j
            (pipe_conn d end_a)
            log
            v.ours
            envs
            (record v.alice' { wire = v.bob'.wire })
          ≡ done tt a)
        × (receive_each p c f j
              (pipe_conn d' end_b)
              fresh
              v.theirs
              0
              (length envs)
              (record v.bob' { wire = a.wire })
            ≡ done envs b)
        × (b.wire ≡ new_pipe)
        × (a.store ≡ recorded log envs v.alice'.store)
  unfolding set_out other_end new_pipe
  talk envs fits few =
      let (ts, texts) = fits-Texts j envs fits in
      let same = length-Texts texts in
      let (a, e, sent, store) =
        send_each-Sent p c f j log v.est.chain k v.ours d end_a new_pipe refl 0 []
          (record v.alice' { wire = v.bob'.wire }) texts (omega arith) (omega arith)
          (record { sends = v.sends; wire = v.clear }) in
      let (b, e', got) =
        receive_each-Awaits p c f j v.est.chain k v.theirs d' end_a new_pipe fresh v.est.bytes
          length_k drawn 0 [] (record v.bob' { wire = a.wire }) texts (omega arith)
          (record {
            reads = v.reads;
            wire = sent.wire ∙ ap (λ q. set_out end_a q new_pipe) (sym (append_nil _));
          }) in
      (a, b, e, e', got.wire, store)

-- The interactive handshake and what follows it, over a pipe in which both calls of Send find room.
-- Bob has proper prekeys of his identity key, his session store is that of his account, and all the
-- private keys that are drawn, and Alice's agreement key, have 32 bytes. Bob's handshakeResponder,
-- while it waits, meets Alice's handshakeInitiator, which expects his key. Both succeed, the links
-- carry the fingerprint and the key of the other side; then at most 64 envelopes that Alice sends,
-- with valid text, Bob receives as they were, in order, and the pipe is empty again.
pub handshake-receive_each :
    {A B : Type 0} (p : Primitives) (c : Codec WireMessage) (f : Codec Frame) (j : Json Envelope)
    (log : Log A) (d d' : Bool) (alice : Node Pipe A) (bob : Node Pipe B)
    (eph ratchet_key k : Bytes) (fresh : ℕ → Result Bytes) (envs : List Envelope)
    → bob.sessions.pre ≡ some bob.account.pre_keys
    → bob.sessions.local.signing_pub ≡ bob.account.pre_keys.id.signing_pub
    → IsProper p bob.account.pre_keys
    → length alice.sessions.local.agreement_priv ≡ 32
    → length eph ≡ 32
    → length ratchet_key ≡ 32
    → length k ≡ 32
    → fresh 0 ≡ ok k
    → All (λ env. j.fits env ≡ true) envs
    → length envs ≤ 64
    → let key = bob.account.pre_keys.id.signing_pub in
      (l l' : Link) × (alice' alice'' : Node Pipe A) × (bob' bob'' : Node Pipe B)
      × (handshake_initiator p f
            (pipe_conn d end_a)
            (ok eph)
            (ok ratchet_key)
            key
            (record alice { wire = with_bundle p f bob })
          ≡ done l alice')
      × (handshake_responder p f
            (pipe_conn d' end_b)
            (answer_of p f d (ok eph) (ok ratchet_key) key alice)
            (on_new_pipe bob)
          ≡ done l' bob')
      × (l.peer_fp ≡ fingerprint p key)
      × (l'.peer_fp ≡ fingerprint p alice.sessions.local.signing_pub)
      × (l.peer_key ≡ key)
      × (l'.peer_key ≡ alice.sessions.local.signing_pub)
      × (send_each p c f j (pipe_conn d end_a) log l envs (record alice' { wire = bob'.wire })
          ≡ done tt alice'')
      × (receive_each p c f j
            (pipe_conn d' end_b)
            fresh
            l'
            0
            (length envs)
            (record bob' { wire = alice''.wire })
          ≡ done envs bob'')
      × (bob''.wire ≡ new_pipe)
handshake-receive_each p c f j log d d' alice bob eph ratchet_key k fresh envs has same proper na ne
      nr nk drawn fits few =
    let v = link_up p f d d' alice bob eph ratchet_key k (
      establish p alice.sessions bob.sessions bob.account.pre_keys eph ratchet_key k has same proper
        na ne nr nk) in
    let (a, b, e, e', clear, _) =
      talk p c f j log d d' alice bob eph ratchet_key fresh k nk drawn v envs fits few in
    (
      v.ours, v.theirs, v.alice', a, v.bob', b, v.initiates, v.responds, v.our_fp, v.their_fp,
      v.our_key, v.their_key, e, e', clear,
    )
