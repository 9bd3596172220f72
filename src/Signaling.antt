-- ===== src/Signaling.antt =====
-- core/pkg/signaling/memory.go: the in-process fabric on which nodes find each other and exchange
-- session descriptions. A call that would wait, on a full or an empty channel, fails with
-- `would_block` and changes nothing.
pub mod Exchange
use stunner.Base.{
  ℕ, Bool, true, false, not, Option, none, some, List, [], ◌∷◌, ◌++◌, ltb, ◌==◌, length,
  if◌then◌else◌,
}
use stunner.Base.Bytes.{Bytes}
use stunner.Base.Eq.{bytes_eq_instance}
use stunner.Base.Dict.{Dict, lookup, insert}
use stunner.Base.Result.{Result, ok, err, or_err, not_implemented, would_block}
use stunner.Base.Method.{Method, done, failed}
use stunner.Crypto.Ratchet.Text.{hex}

pub record OfferFrame : Type 0 where
  pub from : Bytes
  pub payload : Bytes

pub record Inbox : Type 0 where
  pub offers : List OfferFrame
  pub cands : List Bytes
  pub answers : Dict Bytes (List Bytes)

-- The registry, and the field `lastRemote` of each signaler of it.
pub record Registry : Type 0 where
  pub advert : Dict Bytes Bytes
  pub online : Dict Bytes Bool
  pub boxes : Dict Bytes Inbox
  pub last_remote : Dict Bytes Bytes

unfoldable pub new_inbox : Inbox
new_inbox = record { offers = []; cands = []; answers = [] }

-- `box`: an inbox that is missing is made.
unfoldable pub inbox_of : Bytes → Registry → Inbox
inbox_of peer_id r = elim (lookup peer_id r.boxes) [ none ↦ new_inbox | some b ↦ b ]

unfoldable pub set_inbox : Bytes → Inbox → Registry → Registry
set_inbox peer_id b r = record r { boxes = insert peer_id b r.boxes }

-- `answerChan`
unfoldable pub answers_from : Bytes → Inbox → List Bytes
answers_from from b = elim (lookup from b.answers) [ none ↦ [] | some queue ↦ queue ]

unfoldable pub join : Bytes → Registry → Registry
join peer_id r =
    let s = set_inbox peer_id (inbox_of peer_id r) r in
    record s { online = insert peer_id true s.online }

unfoldable pub advertise : Bytes → Bytes → Registry → Registry
advertise me key r = record r { advert = insert (hex key) me r.advert }

unfoldable pub find : Bytes → Registry → Result Bytes
find key r = or_err (lookup (hex key) r.advert) not_implemented

unfoldable pub send_offer : Bytes → Bytes → Bytes → Method Registry (Unit {0})
send_offer me peer_id sdp r =
    let b = inbox_of peer_id r in
    if ltb (length b.offers) 16
    then done tt (
        set_inbox peer_id
          (record b { offers = b.offers ++ record { from = me; payload = sdp } ∷ [] }) r)
    else failed would_block r

unfoldable pub put_answer : Bytes → Bytes → Bytes → Method Registry (Unit {0})
put_answer me to sdp r =
    let b = inbox_of to r in
    if ltb (length (answers_from me b)) 8
    then done tt (
        set_inbox to (record b { answers = insert me (answers_from me b ++ sdp ∷ []) b.answers }) r)
    else failed would_block r

unfoldable pub send_answer : Bytes → Bytes → Method Registry (Unit {0})
send_answer me sdp r = elim (lookup me r.last_remote) [
  | none ↦ failed not_implemented r
  | some to ↦ if length to == 0 then failed not_implemented r else put_answer me to sdp r
]

-- `SendSDP`: an offer to a peer that is named, else an answer.
unfoldable pub send_sdp : Bytes → Bytes → Bytes → Method Registry (Unit {0})
send_sdp me peer_id sdp r =
    if length peer_id == 0 then send_answer me sdp r else send_offer me peer_id sdp r

unfoldable pub take_offer : Bytes → List OfferFrame → Method Registry Bytes
take_offer me [] r = failed would_block r
take_offer me (f ∷ fs) r =
    let s = set_inbox me (record (inbox_of me r) { offers = fs }) r in
    done f.payload (record s { last_remote = insert me f.from s.last_remote })

unfoldable pub take_answer : Bytes → Bytes → List Bytes → Method Registry Bytes
take_answer me from [] r = failed would_block r
take_answer me from (a ∷ queue) r =
    let b = inbox_of me r in
    done a (set_inbox me (record b { answers = insert from queue b.answers }) r)

-- `RecvSDP`
unfoldable pub recv_sdp : Bytes → Bytes → Method Registry Bytes
recv_sdp me peer_id r =
    if length peer_id == 0
    then take_offer me (inbox_of me r).offers r
    else take_answer me peer_id (answers_from peer_id (inbox_of me r)) r

unfoldable pub put_candidate : Bytes → Bytes → Method Registry (Unit {0})
put_candidate to cand r =
    let b = inbox_of to r in
    if ltb (length b.cands) 16
    then done tt (set_inbox to (record b { cands = b.cands ++ cand ∷ [] }) r)
    else failed would_block r

unfoldable pub send_candidate : Bytes → Bytes → Bytes → Method Registry (Unit {0})
send_candidate me peer_id cand r =
    if length peer_id == 0
    then elim (lookup me r.last_remote) [
      | none ↦ failed not_implemented r
      | some to ↦ if length to == 0 then failed not_implemented r else put_candidate to cand r
    ]
    else put_candidate peer_id cand r

unfoldable pub take_candidate : Bytes → List Bytes → Method Registry Bytes
take_candidate me [] r = failed would_block r
take_candidate me (x ∷ queue) r = done x (set_inbox me (record (inbox_of me r) { cands = queue }) r)

unfoldable pub recv_candidate : Bytes → Method Registry Bytes
recv_candidate me r = take_candidate me (inbox_of me r).cands r

unfoldable pub presence : Bytes → Registry → Bool
presence peer_id r = elim (lookup peer_id r.online) [ none ↦ false | some b ↦ b ]

-- `Close`
unfoldable pub leave : Bytes → Registry → Registry
leave me r = record r { online = insert me false r.online }
