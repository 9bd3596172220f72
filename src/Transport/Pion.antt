-- ===== src/Transport/Pion.antt =====
-- core/pkg/transport/pion.go: connections over WebRTC. What pion, the signaler and the clock answer
-- are arguments; the state records what is done with the peer connection.
pub mod Drain
pub mod Closing
use stunner.Base.{
  ℕ, suc, Bool, true, false, not, ◌&&◌, ◌||◌, List, [], ◌∷◌, ◌++◌, ltb, length, if◌then◌else◌,
  Option, none, some,
}
use stunner.Base.Bytes.{Bytes}
use stunner.Base.Result.{
  Error, Result, ok, err, or_err, closed, would_block, open_timeout, channel_timeout, bad_json,
}
use stunner.Base.Method.{Method, Outcome, done, failed, lift, return, ◌>>=◌, ◌>>◌}

-- pionConn: the inbound queue, whether the channels `open` and `done` are closed, what was sent on
-- the data channel, and whether the peer connection was closed.
pub record PionConn : Type 0 where
  pub in_queue : List Bytes
  pub opened : Bool
  pub ended : Bool
  pub out : List Bytes
  pub pc_shut : Bool

abbrev pub in_size : ℕ
in_size = 64

unfoldable pub new_pion_conn : PionConn
new_pion_conn = record { in_queue = []; opened = false; ended = false; out = []; pc_shut = false }

-- The callback of OnOpen.
unfoldable pub on_open : PionConn → PionConn
on_open c = record c { opened = true }

-- `closeDone`, which is the callback of OnClose and of a failed or closed peer connection.
unfoldable pub close_done : PionConn → PionConn
close_done c = record c { ended = true }

-- The callback of OnMessage; `chosen` is true if the select drops the message where both cases are
-- ready. A callback that would wait fails with `would_block`.
unfoldable pub on_message : Bool → Bytes → Method PionConn (Unit {0})
on_message chosen b c =
    if c.ended && (chosen || not (ltb (length c.in_queue) in_size))
    then done tt c
    else if ltb (length c.in_queue) in_size
    then done tt (record c { in_queue = c.in_queue ++ b ∷ [] })
    else failed would_block c

-- `Send`; `fault` is what the data channel answers.
unfoldable pub pion_send : Option Error → Bytes → Method PionConn (Unit {0})
pion_send fault b c =
    if c.ended
    then failed closed c
    else elim fault [ some e ↦ failed e c | none ↦ done tt (record c { out = c.out ++ b ∷ [] }) ]

unfoldable pub take_in : List Bytes → Method PionConn Bytes
take_in [] c = failed (if c.ended then closed else would_block) c
take_in (b ∷ bs) c = done b (record c { in_queue = bs })

-- `Recv`: the closed channel `done` leads to the queue again, so both cases take from it.
unfoldable pub pion_recv : Method PionConn Bytes
pion_recv c = take_in c.in_queue c

-- `Close`
unfoldable pub pion_close : PionConn → PionConn
pion_close c = record (close_done c) { pc_shut = true }

-- What ends the select of `waitOpen`.
pub data Awaited : Type 0 where
  got_open got_done got_timeout : Awaited

unfoldable pub wait_open : Awaited → Result (Unit {0})
wait_open got_open = ok tt
wait_open got_done = err closed
wait_open got_timeout = err open_timeout

-- The peer connections that one Dial or Accept makes and closes, and the descriptions it sends.
pub record Peers : Type 0 where
  pub made : ℕ
  pub shut : ℕ
  pub sent : List (Bytes × Bytes)

-- A call whose failure closes the peer connection.
unfoldable pub or_close {ℓ} : {A : Type ℓ} → Result A → Method Peers A
or_close (ok a) s = done a s
or_close (err e) s = failed e (record s { shut = suc s.shut })

-- NewPeerConnection
unfoldable pub make_peer : Result (Unit {0}) → Method Peers (Unit {0})
make_peer (ok u) s = done u (record s { made = suc s.made })
make_peer (err e) s = failed e s

-- SendSDP
unfoldable pub send_local : Bytes → Bytes → Result (Unit {0}) → Method Peers (Unit {0})
send_local peer_id sdp (ok u) s = done u (record s { sent = s.sent ++ (peer_id, sdp) ∷ [] })
send_local peer_id sdp (err e) s = or_close (err e) s

-- The answers to the calls of `Dial` and of `Accept`; `local` is the local description as JSON, and
-- `parsed` whether the remote one is JSON. `callbacks` is what ran on the connection until it is returned.
pub record Calls : Type 0 where
  pub create : Result (Unit {0})
  pub channel : Result (Unit {0})
  pub describe : Result (Unit {0})
  pub gather : Result (Unit {0})
  pub local : Bytes
  pub send : Result (Unit {0})
  pub remote : Result Bytes
  pub parsed : Bytes → Option (Unit {0})
  pub set_remote : Result (Unit {0})
  pub arrived : Bool
  pub awaited : Awaited
  pub callbacks : PionConn → PionConn

-- `Dial`
unfoldable pub pion_dial : Bytes → Calls → Method Peers PionConn
pion_dial peer_id k = do
  make_peer k.create
  or_close k.channel
  or_close k.describe
  or_close k.gather
  send_local peer_id k.local k.send
  answer ← or_close k.remote
  or_close (or_err (k.parsed answer) bad_json)
  or_close k.set_remote
  or_close (wait_open k.awaited)
  return (k.callbacks new_pion_conn)

-- What `Accept` finds in the channel of data channels.
unfoldable pub inbound : Bool → Result (Unit {0})
inbound true = ok tt
inbound false = err channel_timeout

-- `Accept`
unfoldable pub pion_accept : Calls → Method Peers PionConn
pion_accept k = do
  make_peer k.create
  offer ← or_close k.remote
  or_close (or_err (k.parsed offer) bad_json)
  or_close k.set_remote
  or_close k.describe
  or_close k.gather
  send_local [] k.local k.send
  or_close (inbound k.arrived)
  or_close (wait_open k.awaited)
  return (k.callbacks new_pion_conn)
