-- ===== src/Signaling/Exchange.antt =====
-- One exchange of session descriptions.
use stunner.Base.{◌≡◌, ◌≢◌, ◌<◌, ap, ◌∙◌, some, List, [], ◌∷◌, ◌++◌, arith, length, if◌then◌else◌}
use stunner.Base.Bytes.{Bytes}
use stunner.Base.Eq.{bytes_eq, bytes_eq_iff, bytes_eq_refl, bytes_eq_instance}
use stunner.Base.Dict.{lookup, insert, lookup-insert, lookup-insert_self}
use stunner.Base.Method.{done}
use stunner.Signaling.{
  OfferFrame, Inbox, Registry, inbox_of, set_inbox, answers_from, send_offer, send_answer,
  put_answer, send_sdp, take_offer, take_answer, recv_sdp,
}

inbox_of-set_inbox :
    (a b : Bytes) (i : Inbox) (r : Registry)
    → inbox_of a (set_inbox b i r) ≡ (if bytes_eq b a then i else inbox_of a r)
unfolding inbox_of set_inbox
inbox_of-set_inbox a b i r = rw (inbox_of, lookup-insert b a i r.boxes) (ground arith)

answers_from-insert :
    (a : Bytes) (queue : List Bytes) (i : Inbox)
    → answers_from a (record i { answers = insert a queue i.answers }) ≡ queue
unfolding answers_from
answers_from-insert a queue i = rw (answers_from, lookup-insert_self a queue i.answers)

inbox_self : (a : Bytes) (i : Inbox) (r : Registry) → inbox_of a (set_inbox a i r) ≡ i
inbox_self a i r = inbox_of-set_inbox a a i r ∙ rw (bytes_eq_refl a)

inbox_other :
    (a b : Bytes) (i : Inbox) (r : Registry) → a ≢ b → inbox_of a (set_inbox b i r) ≡ inbox_of a r
inbox_other a b i r ne = inbox_of-set_inbox a b i r ∙ ground (arith, bytes_eq_iff b a)

module _ (me peer : Bytes) (sdp : Bytes) (r : Registry) where
  frame : OfferFrame
  frame = record { from = me; payload = sdp }

  offered : Registry
  offered =
      set_inbox peer (record (inbox_of peer r) { offers = (inbox_of peer r).offers ++ frame ∷ [] })
        r

  send_sdp-offered :
      0 < length peer → (inbox_of peer r).offers ≡ [] → send_sdp me peer sdp r ≡ done tt offered
  unfolding send_sdp send_offer offered frame
  send_sdp-offered named free = ground (arith, free)

  answered : Registry
  answered =
      set_inbox peer
        (record (inbox_of peer r) {
          answers =
              insert me (answers_from me (inbox_of peer r) ++ sdp ∷ []) (inbox_of peer r).answers;
        })
        r

  send_sdp-answered :
      lookup me r.last_remote ≡ some peer
      → 0 < length peer
      → answers_from me (inbox_of peer r) ≡ []
      → send_sdp me [] sdp r ≡ done tt answered
  unfolding send_sdp send_answer put_answer answered
  send_sdp-answered remote named free = ground (arith, remote, free)

module _ (me : Bytes) (r : Registry) where
  with_offers : List OfferFrame → OfferFrame → Registry
  with_offers fs f =
      let s = set_inbox me (record (inbox_of me r) { offers = fs }) r in
      record s { last_remote = insert me f.from s.last_remote }

  recv_sdp-offer :
      (f : OfferFrame) (fs : List OfferFrame)
      → (inbox_of me r).offers ≡ f ∷ fs
      → recv_sdp me [] r ≡ done f.payload (with_offers fs f)
  unfolding recv_sdp take_offer with_offers
  recv_sdp-offer f fs e = ap (λ os. take_offer me os r) e

  recv_sdp-answer :
      (peer a : Bytes) (queue : List Bytes)
      → 0 < length peer
      → answers_from peer (inbox_of me r) ≡ a ∷ queue
      → (s : Registry) × (recv_sdp me peer r ≡ done a s)
  unfolding recv_sdp take_answer
  recv_sdp-answer peer a queue named e = (_, named_case ∙ ap (λ q. take_answer me peer q r) e)
    where
      named_case : recv_sdp me peer r ≡ take_answer me peer (answers_from peer (inbox_of me r)) r
      named_case = ground arith

-- What the four steps leave.
module _ (alice bob offer answer : Bytes) (r : Registry) (ne : alice ≢ bob) where
  f : OfferFrame
  f = frame alice bob offer r

  s : Registry
  s = offered alice bob offer r

  waiting : (inbox_of bob r).offers ≡ [] → (inbox_of bob s).offers ≡ f ∷ []
  unfolding s f offered
  waiting e = ap (λ i. i.offers) (inbox_self bob _ r) ∙ ap (λ os. os ++ f ∷ []) e

  remote : lookup bob (with_offers bob s [] f).last_remote ≡ some alice
  unfolding with_offers f frame
  remote = lookup-insert_self bob alice _

  free :
      answers_from bob (inbox_of alice r) ≡ []
      → answers_from bob (inbox_of alice (with_offers bob s [] f)) ≡ []
  unfolding with_offers s offered inbox_of
  free e = ap (answers_from bob) (inbox_other alice bob _ s ne ∙ inbox_other alice bob _ r ne) ∙ e

  ready :
      (t : Registry)
      → answers_from bob (inbox_of alice t) ≡ []
      → answers_from bob (inbox_of alice (answered bob alice answer t)) ≡ answer ∷ []
  unfolding answered
  ready t e =
      ap (answers_from bob) (inbox_self alice _ t)
      ∙ answers_from-insert bob (answers_from bob (inbox_of alice t) ++ answer ∷ [])
          (inbox_of alice t)
      ∙ ap (λ q. q ++ answer ∷ []) e

-- An offer that is sent to a peer with no other offer waiting is what the peer receives next, and
-- the answer that the peer then sends is what the offerer receives from it, if no other answer of
-- that peer waits. The two have names, and these differ.
pub exchange :
    (alice bob offer answer : Bytes) (r : Registry)
    → alice ≢ bob
    → 0 < length alice
    → 0 < length bob
    → (inbox_of bob r).offers ≡ []
    → answers_from bob (inbox_of alice r) ≡ []
    → (s t u v : Registry) × (send_sdp alice bob offer r ≡ done tt s)
      × (recv_sdp bob [] s ≡ done offer t)
      × (send_sdp bob [] answer t ≡ done tt u)
      × (recv_sdp alice bob u ≡ done answer v)
unfolding frame f s
exchange alice bob offer answer r ne na nb no_offer no_answer =
    let s' = offered alice bob offer r in
    let f' = frame alice bob offer r in
    let t = with_offers bob s' [] f' in
    let unanswered = free alice bob offer answer r ne no_answer in
    let (v, last) =
      recv_sdp-answer alice (answered bob alice answer t) bob answer [] nb
        (ready alice bob offer answer r ne t unanswered) in
    (
      s',
      t,
      answered bob alice answer t,
      v,
      send_sdp-offered alice bob offer r nb no_offer,
      recv_sdp-offer bob s' f' [] (waiting alice bob offer answer r ne no_offer),
      send_sdp-answered bob alice answer t (remote alice bob offer answer r ne) na unanswered,
      last,
    )
