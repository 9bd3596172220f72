-- ===== src/Examples/Fabrics.antt =====
-- Two nodes on an empty fabric.
use stunner.Base.{◌≡◌, ◌≢◌, refl, [], arith}
use stunner.Base.Bytes.{codes}
use stunner.Base.Eq.{bytes_eq_instance}
use stunner.Base.Dict.{lookup}
use stunner.Base.Method.{done}
use stunner.Signaling.{Registry, inbox_of, answers_from, new_inbox, send_sdp, recv_sdp}
use stunner.Signaling.Exchange.{exchange}

abbrev fabric : Registry
fabric = record { advert = []; online = []; boxes = []; last_remote = [] }

no_offers : (inbox_of (codes "bob") fabric).offers ≡ []
unfolding inbox_of lookup new_inbox
no_offers = refl

no_answers : answers_from (codes "bob") (inbox_of (codes "alice") fabric) ≡ []
unfolding inbox_of answers_from lookup new_inbox
no_answers = refl

two_names : codes "alice" ≢ codes "bob"
two_names = ground arith

exchange_example :
    (s t u v : Registry) × (send_sdp (codes "alice") (codes "bob") (codes "offer") fabric
      ≡ done tt s)
    × (recv_sdp (codes "bob") [] s ≡ done (codes "offer") t)
    × (send_sdp (codes "bob") [] (codes "answer") t ≡ done tt u)
    × (recv_sdp (codes "alice") (codes "bob") u ≡ done (codes "answer") v)
exchange_example =
    exchange (codes "alice") (codes "bob") (codes "offer") (codes "answer") fabric two_names
      (omega arith) (omega arith) no_offers no_answers
