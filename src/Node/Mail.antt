-- ===== src/Node/Mail.antt =====
-- SendOffline and FetchOffline of core/pkg/node/node.go, on the in-memory mailbox.
pub mod Offline
use stunner.Base.{ℕ, zero, suc, none, some, List, [], ◌∷◌}
use stunner.Base.Bytes.{Bytes}
use stunner.Base.Result.{Result, or_err, missing_handshake}
use stunner.Base.Method.{Outcome, Method, done, failed, ◌>>=◌, lift, return, get}
use stunner.Identity.{fingerprint}
use stunner.Crypto.Primitives.{Primitives, Codec}
use stunner.Crypto.Ratchet.{WireMessage}
use stunner.Crypto.Session.{MemStore, initiate, accept, session_encrypt, session_decrypt}
use stunner.Crypto.X3dh.{PreKeyBundle}
use stunner.Mailbox.{Boxes, put, fetch}
use stunner.Messaging.{
  Json, Envelope, Frame, handshake_frame, encode_envelope, decode_envelope, encode_frame,
  decode_frame,
}

-- The session store of a node, and the mailbox.
pub record Post : Type 0 where
  pub sessions : MemStore
  pub mailbox : Boxes

unfoldable pub with_mailbox : {A : Type 0} → Post → Outcome Boxes A → Outcome Post A
with_mailbox s (done a m) = done a (record s { mailbox = m })
with_mailbox s (failed e m) = failed e (record s { mailbox = m })

unfoldable pub with_store : {A : Type 0} → Post → Outcome MemStore A → Outcome Post A
with_store s (done a m) = done a (record s { sessions = m })
with_store s (failed e m) = failed e (record s { sessions = m })

unfoldable pub on_mailbox : {A : Type 0} → Method Boxes A → Method Post A
on_mailbox m s = with_mailbox s (m s.mailbox)

unfoldable pub on_store : {A : Type 0} → Method MemStore A → Method Post A
on_store m s = with_store s (m s.sessions)

module _ (p : Primitives) (c : Codec WireMessage) (f : Codec Frame) (j : Json Envelope) where
  -- The frame that `SendOffline` puts into the mailbox.
  unfoldable pub seal_offline :
      Result Bytes → Result Bytes → PreKeyBundle → Envelope → Method MemStore Bytes
  seal_offline g g' bundle env = do
    x ← initiate p g g' bundle
    pt ← lift (encode_envelope j env)
    ct ← session_encrypt p c x.0 pt
    return (encode_frame f (handshake_frame x.1 ct))

  unfoldable pub send_offline :
      Result Bytes → Result Bytes → PreKeyBundle → Envelope → Method Post (Unit {0})
  send_offline g g' bundle env = do
    frame ← on_store (seal_offline g g' bundle env)
    on_mailbox (put (fingerprint p bundle.identity_sign) frame)

  -- One turn of the loop of `FetchOffline`.
  unfoldable pub open_offline : Result Bytes → Bytes → Method MemStore Envelope
  open_offline fresh raw = do
    frame ← lift (decode_frame f raw)
    hs ← lift (or_err frame.handshake missing_handshake)
    h ← accept p hs
    pt ← session_decrypt p c h fresh frame.payload
    lift (decode_envelope j pt)

  -- The loop; `fresh i` is what GenerateKey returns in turn `i`.
  unfoldable pub open_each : (ℕ → Result Bytes) → ℕ → List Bytes → Method MemStore (List Envelope)
  open_each fresh i [] = return []
  open_each fresh i (raw ∷ raws) = do
    env ← open_offline (fresh i) raw
    envs ← open_each fresh (suc i) raws
    return (env ∷ envs)

  -- The node's own fingerprint is that of its account's identity, whose store this is.
  unfoldable pub own_fingerprint : Post → Bytes
  own_fingerprint s = fingerprint p s.sessions.local.signing_pub

  unfoldable pub fetch_offline : (ℕ → Result Bytes) → Method Post (List Envelope)
  fetch_offline fresh = do
    s ← get
    raws ← on_mailbox (fetch (own_fingerprint s))
    on_store (open_each fresh 0 raws)
