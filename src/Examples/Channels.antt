-- ===== src/Examples/Channels.antt =====
-- Connections over WebRTC.
use stunner.Base.{◌≡◌, refl, Bool, true, false, some, List, [], ◌∷◌, arith}
use stunner.Base.Bytes.{Bytes, codes}
use stunner.Base.Result.{ok, err, closed}
use stunner.Base.Method.{done}
use stunner.Transport.Pion.{
  PionConn, new_pion_conn, on_open, close_done, Peers, Calls, got_timeout, pion_dial, pion_accept,
}
use stunner.Transport.Pion.Drain.{on_messages, recv_times, recv_times-on_messages}
use stunner.Transport.Pion.Closing.{Settled, pion_dial-pion_accept}

abbrev inbound_messages : List (Bool × Bytes)
inbound_messages = (true, codes "one") ∷ (false, codes "two") ∷ []

recv_times-on_messages_example :
    (t : PionConn) × (on_messages inbound_messages new_pion_conn ≡ done tt t)
    × (recv_times 4 (close_done t)
        ≡ ok (codes "one") ∷ ok (codes "two") ∷ err closed ∷ err closed ∷ [])
unfolding new_pion_conn
recv_times-on_messages_example =
    recv_times-on_messages inbound_messages 2 new_pion_conn refl refl (ground arith)

abbrev no_peers : Peers
no_peers = record { made = 0; shut = 0; sent = [] }

-- Everything goes well until the data channel does not open in time.
abbrev calls : Calls
calls = record {
  create = ok tt;
  channel = ok tt;
  describe = ok tt;
  gather = ok tt;
  local = codes "offer";
  send = ok tt;
  remote = ok (codes "answer");
  parsed = λ b. some tt;
  set_remote = ok tt;
  arrived = true;
  awaited = got_timeout;
  callbacks = on_open;
}

pion_dial-pion_accept_example :
    Settled (codes "peer") (codes "offer") no_peers (pion_dial (codes "peer") calls no_peers)
    × Settled [] (codes "offer") no_peers (pion_accept calls no_peers)
pion_dial-pion_accept_example = pion_dial-pion_accept calls no_peers (codes "peer")
