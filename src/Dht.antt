-- ===== src/Dht.antt =====
-- core/pkg/signaling/libp2p.go: session descriptions over libp2p streams. peer.Decode, NewStream and
-- the write on the stream are arguments; a peer.ID is its bytes. A call that would wait on a channel
-- fails with `would_block`, with what it has changed until then.
pub mod Reply
use stunner.Base.{
  ℕ, Bool, true, false, not, ◌&&◌, ◌||◌, Option, none, some, List, [], ◌∷◌, ◌++◌, ltb, ◌==◌, take,
  drop, length, if◌then◌else◌, ◌%◌, ◌^◌,
}
use stunner.Base.Bytes.{Bytes, be32, from_be32}
use stunner.Base.Eq.{bytes_eq_instance}
use stunner.Base.Dict.{Dict, lookup, insert}
use stunner.Base.Result.{
  Error, Result, ok, err, or_err, check, ◌>>=◌, ◌>>◌, would_block, bad_uri, short_frame,
  no_reply_peer, cancelled,
}
use stunner.Base.Method.{Method, done, failed, state_of}

-- dhtOffer
pub record DhtOffer : Type 0 where
  pub from : Bytes
  pub payload : Bytes

-- The fields of `DHTSignaler` that its methods change; `stopped` is whether the context is done.
pub record DhtSignaler : Type 0 where
  pub last_remote : Bytes
  pub answers : Dict Bytes (List Bytes)
  pub offer_in : List DhtOffer
  pub cand_in : List Bytes
  pub stopped : Bool

-- The room of each channel.
abbrev pub queue_size : ℕ
queue_size = 8

-- What `writeFrame` writes.
unfoldable pub write_frame : ℕ → Bytes → Bytes
write_frame kind content = kind ∷ be32 (length content % 2 ^ 32) ++ content

-- io.ReadFull of `n` bytes, from what the peer writes until it closes the stream.
unfoldable pub read_full : ℕ → Bytes → Result (Bytes × Bytes)
read_full n b = if ltb (length b) n then err short_frame else ok (take n b, drop n b)

unfoldable pub read_body : ℕ → Bytes → Bytes → Result (ℕ × Bytes)
read_body kind size rest = do body ← read_full (from_be32 size) rest; ok (kind, body.0)

unfoldable pub read_kind : Bytes → Bytes → Result (ℕ × Bytes)
read_kind [] rest = err short_frame
read_kind (kind ∷ size) rest = read_body kind size rest

unfoldable pub read_frame : Bytes → Result (ℕ × Bytes)
read_frame b = do header ← read_full 5 b; read_kind header.0 header.1

-- `answerChan`: the queue of a peer, made when it is missing.
unfoldable pub answer_chan : Bytes → DhtSignaler → List Bytes
answer_chan from s = elim (lookup from s.answers) [ none ↦ [] | some queue ↦ queue ]

-- A select between a send on a channel of these items and the end of the context; `chosen` is true if
-- it takes the latter where both can be taken.
unfoldable pub offer_to {ℓ} :
    {A : Type ℓ} → Bool → List A → (DhtSignaler → DhtSignaler) → Method DhtSignaler (Unit {0})
offer_to chosen queue put s =
    if s.stopped && (chosen || not (ltb (length queue) queue_size))
    then done tt s
    else if ltb (length queue) queue_size
    then done tt (put s)
    else failed would_block s

-- `onStream` behind readFrame.
unfoldable pub on_offer : Bool → Bytes → Bytes → Method DhtSignaler (Unit {0})
on_offer chosen remote content s =
    let t = record s { last_remote = remote } in
    offer_to chosen t.offer_in
      (λ u. record u { offer_in = u.offer_in ++ record { from = remote; payload = content } ∷ [] })
      t

unfoldable pub on_answer : Bool → Bytes → Bytes → Method DhtSignaler (Unit {0})
on_answer chosen remote content s =
    offer_to chosen (answer_chan remote s)
      (λ u. record u { answers = insert remote (answer_chan remote u ++ content ∷ []) u.answers }) s

unfoldable pub on_candidate : Bool → Bytes → Method DhtSignaler (Unit {0})
on_candidate chosen content s =
    offer_to chosen s.cand_in (λ u. record u { cand_in = u.cand_in ++ content ∷ [] }) s

unfoldable pub on_frame : Bool → Bytes → ℕ → Bytes → Method DhtSignaler (Unit {0})
on_frame chosen remote kind content s =
    if kind == b'o'
    then on_offer chosen remote content s
    else if kind == b'a'
    then on_answer chosen remote content s
    else if kind == b'c'
    then on_candidate chosen content s
    else done tt s

unfoldable pub on_stream : Bool → Bytes → Bytes → Method DhtSignaler (Unit {0})
on_stream chosen remote b s = elim (read_frame b) [
  | err e ↦ done tt s
  | ok (kind, content) ↦ on_frame chosen remote kind content s
]

-- The peer that `sendStream` addresses.
unfoldable pub stream_target : (Bytes → Option Bytes) → Bytes → DhtSignaler → Result Bytes
stream_target decode peer_id s =
    if length peer_id == 0
    then (if length s.last_remote == 0 then err no_reply_peer else ok s.last_remote)
    else or_err (decode peer_id) bad_uri

-- `sendStream`: the peer, and what is written on the stream to it. `open_stream` and `write` are what
-- NewStream and the writes return.
unfoldable pub send_stream :
    (Bytes → Option Bytes)
    → Result (Unit {0})
    → Result (Unit {0})
    → Bytes
    → ℕ
    → Bytes
    → DhtSignaler
    → Result (Bytes × Bytes)
send_stream decode open_stream write peer_id kind content s = do
  target ← stream_target decode peer_id s
  open_stream
  write
  ok (target, write_frame kind content)

unfoldable pub send_sdp :
    (Bytes → Option Bytes)
    → Result (Unit {0})
    → Result (Unit {0})
    → Bytes
    → Bytes
    → DhtSignaler
    → Result (Bytes × Bytes)
send_sdp decode open_stream write peer_id sdp =
    if length peer_id == 0
    then send_stream decode open_stream write [] b'a' sdp
    else send_stream decode open_stream write peer_id b'o' sdp

unfoldable pub take_offer : List DhtOffer → Method DhtSignaler Bytes
take_offer [] s = failed (if s.stopped then cancelled else would_block) s
take_offer (f ∷ fs) s = done f.payload (record s { offer_in = fs; last_remote = f.from })

unfoldable pub take_answer : Bytes → List Bytes → Method DhtSignaler Bytes
take_answer from [] s = failed (if s.stopped then cancelled else would_block) s
take_answer from (a ∷ queue) s = done a (record s { answers = insert from queue s.answers })

-- `RecvSDP`; `chosen` is true if the select takes the end of the context where it can.
unfoldable pub recv_sdp : (Bytes → Option Bytes) → Bool → Bytes → Method DhtSignaler Bytes
recv_sdp decode chosen peer_id s =
    if length peer_id == 0
    then (if s.stopped && chosen then failed cancelled s else take_offer s.offer_in s)
    else elim (decode peer_id) [
      | none ↦ failed bad_uri s
      | some from ↦
          if s.stopped && chosen
          then failed cancelled s
          else take_answer from (answer_chan from s) s
    ]
