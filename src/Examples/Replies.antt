-- ===== src/Examples/Replies.antt =====
-- A listener that answers after another offer has come.
use stunner.Base.{◌≡◌, refl, Option, some, [], ◌∷◌, false, arith}
use stunner.Base.Bytes.{Bytes, codes}
use stunner.Base.Result.{ok}
use stunner.Base.Method.{done}
use stunner.Dht.{DhtOffer, DhtSignaler, recv_sdp, send_sdp, write_frame}
use stunner.Dht.Reply.{Arrival, arrives, send_sdp-recv_sdp}

abbrev first_offer : DhtOffer
first_offer = record { from = codes "alice"; payload = codes "offer of alice" }

abbrev listener : DhtSignaler
listener = record {
  last_remote = codes "alice";
  answers = [];
  offer_in = first_offer ∷ [];
  cand_in = [];
  stopped = false;
}

abbrev second_offer : Arrival
second_offer = record {
  chosen = false;
  remote = codes "carol";
  kind = b'o';
  content = codes "offer of carol";
}

abbrev decode : Bytes → Option Bytes
decode b = some b

-- The answer to Alice's offer goes to Carol.
send_sdp-recv_sdp_example :
    (t : DhtSignaler) × (recv_sdp decode false [] listener ≡ done (codes "offer of alice") t)
    × (send_sdp decode (ok tt) (ok tt) [] (codes "answer") (arrives (second_offer ∷ []) t)
        ≡ ok (codes "carol", write_frame b'a' (codes "answer")))
send_sdp-recv_sdp_example =
    send_sdp-recv_sdp decode false listener first_offer [] (second_offer ∷ []) (codes "answer") refl
      refl (ground arith, tt) refl
