-- ===== src/Examples/Nodes.antt =====
-- Two nodes of the toy operations: a link over a pipe, letters in the mailbox, a network.
use stunner.Base.{ℕ, ◌≡◌, refl, true, false, some, [], ◌∷◌, ◌+◌, List, ◌++◌, arith}
use stunner.Base.Bytes.{Bytes, codes}
use stunner.Base.Result.{Result, ok, no_entropy, identity_mismatch, bad_json}
use stunner.Base.Method.{done, failed}
use stunner.Account.{Account}
use stunner.Base.Dict.{lookup}
use stunner.Crypto.Session.{MemStore}
use stunner.Crypto.X3dh.{PreKeyBundle, bundle_of}
use stunner.Identity.{fingerprint, discovery_key, verify_signature}
use stunner.Mailbox.{box, pending}
use stunner.Messaging.{Envelope, bundle_frame, type_text}
use stunner.Transport.{
  Pipe, end_a, end_b, new_pipe, pipe_conn, pipe_recv, take_first, in_of, set_in, pipe_close,
}
use stunner.Base.Eq.{bytes_eq, bytes_eq_refl}
use stunner.Crypto.Session.Stream.{establish}
use stunner.Transport.Fifo.{
  send, recv, close, pipe_calls, wire_calls, new_wire, pipe_calls-wire_calls,
}
use stunner.Node.{Log, Node, Link, bundle, handshake_initiator, handshake_responder}
use stunner.Node.Establish.{Linked, link_up, with_bundle, answer_of, on_new_pipe}
use stunner.Node.Live.{handshake-receive_each}
use stunner.Node.Mail.{Post, fetch_offline}
use stunner.Node.Mail.Offline.{
  fetch_offline-bad_letter, Keys, send_each_offline, fetch_offline-send_offline,
}
use stunner.Node.Connect.{Network, World, connect}
use stunner.Node.Connect.Guard.{Delivers, connect_guarded, connect-other_key, connect_ok}
use stunner.Node.Stream.{send_each, receive_each}
use stunner.Examples.Formats.{codec, json, frame, envelope}
use stunner.Examples.Sessions.{alice, bob, pre_keys, pre_keys-IsProper, person, key_of}
use stunner.Examples.Toy.{toy, toy_codec}

abbrev account : Account
account = record { identity = person 20; pre_keys = pre_keys; contacts = []; key = [] }

abbrev pub log : Log (List Envelope)
log = record { append_message = λ conv env state d. done tt (d ++ env ∷ []) }

abbrev pub node : MemStore → Node Pipe (List Envelope)
node m = record { account = account; store = some []; sessions = m; wire = new_pipe }

abbrev letter : ℕ → Envelope
letter n = record {
  version = 1;
  kind = type_text;
  msg_id = n ∷ [];
  conv_id = codes "conv";
  timestamp = n;
  body = codes "hi";
}

abbrev pub draw : ℕ → Result Bytes
draw n = ok (key_of (9 + n))

pipe_calls-wire_calls_example :
    pipe_calls (send true end_a (codes "x") ∷ recv end_b ∷ close ∷ []) new_pipe
    ≡ wire_calls (send true end_a (codes "x") ∷ recv end_b ∷ close ∷ []) new_wire
pipe_calls-wire_calls_example =
    pipe_calls-wire_calls (send true end_a (codes "x") ∷ recv end_b ∷ close ∷ [])

handshake-receive_each_example :
    let key = pre_keys.id.signing_pub in
    (l l' : Link) × (a a' b b' : Node Pipe (List Envelope)) × (handshake_initiator toy
        (codec frame)
        (pipe_conn true end_a)
        (ok (key_of 7))
        (ok (key_of 8))
        key
        (record (node alice) { wire = with_bundle toy (codec frame) (node bob) })
      ≡ done l a)
    × (handshake_responder toy
          (codec frame)
          (pipe_conn false end_b)
          (answer_of toy (codec frame) true (ok (key_of 7)) (ok (key_of 8)) key (node alice))
          (on_new_pipe (node bob))
        ≡ done l' b)
    × (l.peer_fp ≡ fingerprint toy key)
    × (l'.peer_fp ≡ fingerprint toy alice.local.signing_pub)
    × (l.peer_key ≡ key)
    × (l'.peer_key ≡ alice.local.signing_pub)
    × (send_each toy toy_codec
          (codec frame)
          (json envelope)
          (pipe_conn true end_a)
          log
          l
          (letter 1 ∷ letter 2 ∷ [])
          (record a { wire = b.wire })
        ≡ done tt a')
    × (receive_each toy toy_codec
          (codec frame)
          (json envelope)
          (pipe_conn false end_b)
          draw
          l'
          0
          2
          (record b { wire = a'.wire })
        ≡ done (letter 1 ∷ letter 2 ∷ []) b')
    × (b'.wire ≡ new_pipe)
handshake-receive_each_example =
    handshake-receive_each toy toy_codec (codec frame) (json envelope) log true false (node alice)
      (node bob) (key_of 7) (key_of 8) (key_of 9) draw (letter 1 ∷ letter 2 ∷ []) refl refl
      pre_keys-IsProper refl refl refl refl refl (refl, (refl, tt)) (omega arith)

abbrev post : Post
post = record { sessions = alice; mailbox = [] }

abbrev keys : ℕ → Keys
keys n = record { eph = key_of 7; ratchet_key = key_of 8; fresh = key_of (9 + n) }

abbrev letters : List (Keys × Envelope)
letters = (keys 0, letter 1) ∷ (keys 1, letter 2) ∷ []

fetch_offline-send_offline_example :
    (s' t : Post) × (send_each_offline toy toy_codec
        (codec frame)
        (json envelope)
        pre_keys
        letters
        post
      ≡ done tt s')
    × (fetch_offline toy toy_codec
          (codec frame)
          (json envelope)
          draw
          (record { sessions = bob; mailbox = s'.mailbox })
        ≡ done (letter 1 ∷ letter 2 ∷ []) t)
    × (pending (fingerprint toy pre_keys.id.signing_pub) t.mailbox ≡ 0)
unfolding box lookup
fetch_offline-send_offline_example =
    fetch_offline-send_offline toy toy_codec (codec frame) (json envelope) pre_keys draw letters
      post bob pre_keys-IsProper (refl, refl) refl refl
      (((refl, refl, refl), refl), (((refl, refl, refl), refl), tt)) (refl, (refl, tt))

-- A network in which the peer is found and dialed, and presents the bundle `b`.
abbrev meets : PreKeyBundle → Network ℕ Pipe
meets b = record {
  find = λ key s. done (codes "peer") s;
  advertise = λ key s. done tt s;
  dial = λ peer s.
      done
        (record { a2b = []; b2a = (codec frame).marshal (bundle_frame b) ∷ []; is_closed = false })
        s;
  accept = λ s. failed no_entropy s;
}

abbrev world : World ℕ Pipe (List Envelope)
world = record { signals = 0; node = node alice }

connect-other_key_example :
    connect toy
      (codec frame)
      (pipe_conn true end_a)
      (meets (bundle_of toy pre_keys))
      (ok (key_of 7))
      (ok (key_of 8))
      (key_of 99)
      (codes "salt")
      world
    ≡ failed identity_mismatch (record {
      signals = 0;
      node = record (node alice) { wire = record { a2b = []; b2a = []; is_closed = true } };
    })
unfolding pipe_conn pipe_recv take_first in_of set_in pipe_close bytes_eq bundle_of bundle
connect-other_key_example =
    connect-other_key toy (codec frame) (pipe_conn true end_a) (meets (bundle_of toy pre_keys))
      (ok (key_of 7)) (ok (key_of 8)) (key_of 99) (codes "salt") (codes "peer")
      (bundle_of toy pre_keys) 0 0 (with_bundle toy (codec frame) (node bob))
      (record { a2b = []; b2a = []; is_closed = false }) world refl refl refl refl

-- The handshake of the two nodes, as Connect runs it.
abbrev pub linked :
    Linked toy (codec frame) true false (node alice) (node bob) (key_of 7) (key_of 8) (key_of 9)
linked =
    link_up toy (codec frame) true false (node alice) (node bob) (key_of 7) (key_of 8) (key_of 9) (
      establish toy alice bob pre_keys (key_of 7) (key_of 8) (key_of 9) refl refl pre_keys-IsProper
        refl refl refl refl)

connect_guarded_example :
    (b : PreKeyBundle) × (peer : Bytes) × (w : Pipe) × (s s' : ℕ) × ((meets
          (bundle toy (node bob))).find
        (discovery_key toy pre_keys.id.signing_pub (codes "salt"))
        0
      ≡ done peer s)
    × ((meets (bundle toy (node bob))).dial peer s ≡ done w s')
    × Delivers (codec frame) (pipe_conn true end_a) w b
    × (b.identity_sign ≡ pre_keys.id.signing_pub)
    × (verify_signature toy pre_keys.id.signing_pub b.signed_pre_key b.signed_pre_key_sig ≡ true)
    × (linked.ours.peer_fp ≡ fingerprint toy pre_keys.id.signing_pub)
    × (linked.ours.peer_key ≡ pre_keys.id.signing_pub)
connect_guarded_example =
    connect_guarded toy (codec frame) (pipe_conn true end_a) (meets (bundle toy (node bob)))
      (ok (key_of 7)) (ok (key_of 8)) pre_keys.id.signing_pub (codes "salt") world
      (record { signals = 0; node = linked.alice' }) linked.ours
      (connect_ok toy (codec frame) (pipe_conn true end_a) (meets (bundle toy (node bob)))
        (ok (key_of 7)) (ok (key_of 8)) pre_keys.id.signing_pub (codes "salt") (codes "peer") 0 0
        (with_bundle toy (codec frame) (node bob)) world linked.ours linked.alice' refl refl
        linked.initiates)

-- A mailbox with an empty letter and another one for the node.
abbrev spoiled : Post
spoiled = record {
  sessions = bob;
  mailbox = (fingerprint toy bob.local.signing_pub, [] ∷ codes "letter" ∷ []) ∷ [];
}

spoiled_box : box (fingerprint toy bob.local.signing_pub) spoiled.mailbox ≡ [] ∷ codes "letter" ∷ []
unfolding box lookup
spoiled_box = ground (arith, bytes_eq_refl (fingerprint toy bob.local.signing_pub))

fetch_offline-bad_letter_example :
    (t : Post) × (fetch_offline toy toy_codec (codec frame) (json envelope) draw spoiled
      ≡ failed bad_json t)
    × (t.sessions ≡ spoiled.sessions)
    × (pending (fingerprint toy bob.local.signing_pub) t.mailbox ≡ 0)
fetch_offline-bad_letter_example =
    fetch_offline-bad_letter toy toy_codec (codec frame) (json envelope) draw spoiled []
      (codes "letter" ∷ []) spoiled_box refl
