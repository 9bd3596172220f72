-- ===== src/Node/Mail/Offline.antt =====
-- What one node leaves in the mailbox, the other reads.
use stunner.Base.{
  ℕ, suc, ◌≡◌, refl, sym, ap, subst, ◌∙◌, true, some, none, List, [], ◌∷◌, ◌++◌, map, length, arith,
}
use mathlib.Core.List.{append_assoc}
use stunner.Base.Bytes.{Bytes, All}
use stunner.Base.Eq.{bytes_eq_refl, bytes_eq_instance}
use stunner.Base.Dict.{insert, remove}
use stunner.Base.Result.{Result, ok, bad_json}
use stunner.Base.Method.{Method, done, failed, return, ◌>>◌, >>=-done}
use stunner.Identity.{fingerprint}
use stunner.Crypto.Primitives.{Primitives, Codec}
use stunner.Crypto.Ratchet.{WireMessage}
use stunner.Crypto.Session.{MemStore, add_session}
use stunner.Crypto.Ratchet.Chain.{message_at}
use stunner.Crypto.Session.Stream.{establish, session_encrypt-SendsOn, session_decrypt-ReadsOn}
use stunner.Crypto.X3dh.{PreKeys, bundle_of}
use stunner.Crypto.X3dh.Agreement.{IsProper}
use stunner.Mailbox.{Boxes, box, put, fetch, pending}
use stunner.Mailbox.Order.{box-insert, box-remove}
use stunner.Messaging.{
  Json, Envelope, Frame, handshake_frame, encode_envelope, decode_envelope, encode_frame,
  decode_frame,
}
use stunner.Node.Stream.{append_nil}
use stunner.Node.Mail.{
  Post, with_mailbox, with_store, on_mailbox, on_store, seal_offline, send_offline, open_offline,
  open_each, own_fingerprint, fetch_offline,
}

-- The random keys of one offline message: the two that Initiate draws, and the recipient's.
pub record Keys : Type 0 where
  pub eph : Bytes
  pub ratchet_key : Bytes
  pub fresh : Bytes

abbrev pub IsKeys : Keys → Type 0
IsKeys x = (length x.eph ≡ 32) × (length x.ratchet_key ≡ 32) × (length x.fresh ≡ 32)

-- `m` is a store of the recipient: its identity and its prekeys, with any sessions.
abbrev pub IsRecipient : PreKeys → MemStore → Type 0
IsRecipient prekeys m = (m.pre ≡ some prekeys) × (m.local.signing_pub ≡ prekeys.id.signing_pub)

abbrev pub IsLetter : Json Envelope → Keys × Envelope → Type 0
IsLetter j (x, env) = IsKeys x × (j.fits env ≡ true)

module _ (p : Primitives) (c : Codec WireMessage) (f : Codec Frame) (j : Json Envelope)
    (prekeys : PreKeys) (proper : IsProper p prekeys) where
  -- One message between two stores.
  offline_step :
      (x : Keys) (env : Envelope) (alice bob : MemStore)
      → IsKeys x
      → j.fits env ≡ true
      → length alice.local.agreement_priv ≡ 32
      → IsRecipient prekeys bob
      → (raw : Bytes) × (alice' bob' : MemStore) × (seal_offline p c f j
            (ok x.eph)
            (ok x.ratchet_key)
            (bundle_of p prekeys)
            env
            alice
          ≡ done raw alice')
        × (alice'.local ≡ alice.local)
        × (open_offline p c f j (ok x.fresh) raw bob ≡ done env bob')
        × IsRecipient prekeys bob'
  unfolding seal_offline open_offline encode_envelope decode_envelope encode_frame decode_frame
      add_session
  offline_step x env alice bob (ne, nr, nf) fits na (has, same) =
      let (t, m, u) = j.unmarshal-marshal env fits in
      let est =
        establish p alice bob prekeys x.eph x.ratchet_key x.fresh has same proper na ne nr nf in
      let (alice', e, _, (la, _)) =
        session_encrypt-SendsOn p est.chain x.fresh (length alice.heap) c 0 t
          (add_session est.ours alice) (omega arith) est.sends in
      let ct = message_at p c est.chain 0 t in
      let (bob', d, _, (lb, pb)) =
        session_decrypt-ReadsOn p est.chain x.fresh (length bob.heap) c 0 t (ok x.fresh)
          (add_session est.theirs bob) est.bytes nf (omega arith) (λ z. refl) est.reads in
      (
        f.marshal (handshake_frame est.handshake ct),
        alice',
        bob',
        ground (arith, est.initiates, m, e),
        la,
        ground (arith, f.unmarshal-marshal (handshake_frame est.handshake ct), est.accepts, d, u),
        (pb ∙ has, rw lb same),
      )

  -- A message is put after what the recipient's box holds.
  send_offline_step :
      (x : Keys) (env : Envelope) (s : Post) (raw : Bytes) (alice' : MemStore)
      → seal_offline p c f j (ok x.eph) (ok x.ratchet_key) (bundle_of p prekeys) env s.sessions
        ≡ done raw alice'
      → let fp = fingerprint p prekeys.id.signing_pub in
        send_offline p c f j (ok x.eph) (ok x.ratchet_key) (bundle_of p prekeys) env s
        ≡ done tt (record {
          sessions = alice';
          mailbox = insert fp (box fp s.mailbox ++ raw ∷ []) s.mailbox;
        })
  unfolding send_offline on_store with_store on_mailbox with_mailbox put bundle_of
  send_offline_step x env s raw alice' e = ground (arith, e)

module _ (p : Primitives) (c : Codec WireMessage) (f : Codec Frame) (j : Json Envelope)
    (prekeys : PreKeys) where
  -- Messages sent one after the other, each with its keys.
  unfoldable pub send_each_offline : List (Keys × Envelope) → Method Post (Unit {0})
  send_each_offline [] = return tt
  send_each_offline ((x, env) ∷ letters) =
      send_offline p c f j (ok x.eph) (ok x.ratchet_key) (bundle_of p prekeys) env
      >> send_each_offline letters

-- The recipient draws the keys of the messages in turn.
abbrev pub Draws : (ℕ → Result Bytes) → ℕ → List (Keys × Envelope) → Type 0
Draws fresh i [] = Unit {0}
Draws fresh i ((x, env) ∷ letters) = (fresh i ≡ ok x.fresh) × Draws fresh (suc i) letters

module _ (p : Primitives) (c : Codec WireMessage) (f : Codec Frame) (j : Json Envelope)
    (prekeys : PreKeys) (proper : IsProper p prekeys) (fresh : ℕ → Result Bytes) where
  deliver_each :
      (letters : List (Keys × Envelope)) (i : ℕ) (s : Post) (bob : MemStore)
      → All (IsLetter j) letters
      → Draws fresh i letters
      → length s.sessions.local.agreement_priv ≡ 32
      → IsRecipient prekeys bob
      → let fp = fingerprint p prekeys.id.signing_pub in
        (raws : List Bytes) × (s' : Post) × (bob' : MemStore) × (send_each_offline p c f j prekeys
            letters s
          ≡ done tt s')
        × (box fp s'.mailbox ≡ box fp s.mailbox ++ raws)
        × (open_each p c f j fresh i raws bob ≡ done (map (λ l. l.1) letters) bob')
        × IsRecipient prekeys bob'
  unfolding send_each_offline open_each
  deliver_each [] i s bob good draws na v = ([], s, bob, refl, sym (append_nil _), refl, v)
  deliver_each ((x, env) ∷ letters) i s bob ((keys, fits), good) (drawn, draws) na v =
      let fp = fingerprint p prekeys.id.signing_pub in
      let (raw, alice', bob1, sealed, kept, opened, v1) =
        offline_step p c f j prekeys proper x env s.sessions bob keys fits na v in
      let s1 : Post = record {
        sessions = alice';
        mailbox = insert fp (box fp s.mailbox ++ raw ∷ []) s.mailbox;
      } in
      let (raws, s', bob', sent, boxed, got, v') =
        deliver_each letters (suc i) s1 bob1 good draws (rw kept na) v1 in
      (
        raw ∷ raws,
        s',
        bob',
        >>=-done (send_offline p c f j (ok x.eph) (ok x.ratchet_key) (bundle_of p prekeys) env) _
              (send_offline_step p c f j prekeys proper x env s raw alice' sealed)
            ∙ sent,
        boxed
            ∙ ap (λ l. l ++ raws)
                (box-insert fp fp (box fp s.mailbox ++ raw ∷ []) s.mailbox
                  ∙ ground (arith, bytes_eq_refl fp))
            ∙ append_assoc (box fp s.mailbox) (raw ∷ []) raws,
        >>=-done (open_offline p c f j (fresh i) raw) _
              (subst (λ r. open_offline p c f j r raw bob ≡ done env bob1) (sym drawn) opened)
            ∙ >>=-done (open_each p c f j fresh (suc i) raws) _ got,
        v',
      )

fetch_offline_lem :
    (p : Primitives) (c : Codec WireMessage) (f : Codec Frame) (j : Json Envelope)
    (fresh : ℕ → Result Bytes) (bob bob' : MemStore) (m : Boxes) (fp : Bytes) (raws : List Bytes)
    (envs : List Envelope)
    → fingerprint p bob.local.signing_pub ≡ fp
    → box fp m ≡ raws
    → open_each p c f j fresh 0 raws bob ≡ done envs bob'
    → fetch_offline p c f j fresh (record { sessions = bob; mailbox = m })
      ≡ done envs (record { sessions = bob'; mailbox = remove fp m })
unfolding fetch_offline own_fingerprint on_mailbox with_mailbox fetch on_store with_store
fetch_offline_lem p c f j fresh bob bob' m fp raws envs own held got = rw (own, held, got) refl

-- Letters left in the mailbox. The recipient has proper prekeys of its identity key; the box of its
-- fingerprint is empty at first; the sender's agreement key and all the keys that are drawn have 32
-- bytes, and the envelopes have valid text. Then any number of envelopes that one node sends with
-- SendOffline, to the recipient's published bundle, all go through, and FetchOffline returns exactly
-- these envelopes, in the order in which they were sent, and empties the box.
pub fetch_offline-send_offline :
    (p : Primitives) (c : Codec WireMessage) (f : Codec Frame) (j : Json Envelope)
    (prekeys : PreKeys) (fresh : ℕ → Result Bytes) (letters : List (Keys × Envelope)) (s : Post)
    (bob : MemStore)
    → IsProper p prekeys
    → IsRecipient prekeys bob
    → box (fingerprint p prekeys.id.signing_pub) s.mailbox ≡ []
    → length s.sessions.local.agreement_priv ≡ 32
    → All (IsLetter j) letters
    → Draws fresh 0 letters
    → (s' t : Post) × (send_each_offline p c f j prekeys letters s ≡ done tt s')
      × (fetch_offline p c f j fresh (record { sessions = bob; mailbox = s'.mailbox })
          ≡ done (map (λ l. l.1) letters) t)
      × (pending (fingerprint p prekeys.id.signing_pub) t.mailbox ≡ 0)
fetch_offline-send_offline p c f j prekeys fresh letters s bob proper v empty na good draws =
    let fp = fingerprint p prekeys.id.signing_pub in
    let (raws, s', bob', sent, boxed, got, v') =
      deliver_each p c f j prekeys proper fresh letters 0 s bob good draws na v in
    let held : box fp s'.mailbox ≡ raws = boxed ∙ rw empty refl in
    (
      s',
      record { sessions = bob'; mailbox = remove fp s'.mailbox },
      sent,
      fetch_offline_lem p c f j fresh bob bob' s'.mailbox fp raws _ (ap (fingerprint p) v.1) held
          got,
      unfold pending in rw (box-remove fp fp s'.mailbox, bytes_eq_refl fp),
    )

-- One letter that is no frame, first in the box, and FetchOffline fails: the letters behind it are
-- not returned, and the box is emptied all the same.
pub fetch_offline-bad_letter :
    (p : Primitives) (c : Codec WireMessage) (f : Codec Frame) (j : Json Envelope)
    (fresh : ℕ → Result Bytes) (s : Post) (raw : Bytes) (raws : List Bytes)
    → box (fingerprint p s.sessions.local.signing_pub) s.mailbox ≡ raw ∷ raws
    → f.unmarshal raw ≡ none
    → (t : Post) × (fetch_offline p c f j fresh s ≡ failed bad_json t)
      × (t.sessions ≡ s.sessions)
      × (pending (fingerprint p s.sessions.local.signing_pub) t.mailbox ≡ 0)
unfolding fetch_offline own_fingerprint on_mailbox with_mailbox fetch on_store with_store open_each
    open_offline decode_frame
fetch_offline-bad_letter p c f j fresh s raw raws held bad =
    let fp = fingerprint p s.sessions.local.signing_pub in
    (
      record s { mailbox = remove fp s.mailbox },
      rw held (rw bad refl),
      refl,
      unfold pending in rw (box-remove fp fp s.mailbox, bytes_eq_refl fp),
    )
