-- ===== src/Node/Connect.antt =====
-- Connect and Listen of core/pkg/node/live.go.
pub mod Guard
use stunner.Base.{ℕ}
use stunner.Base.Bytes.{Bytes}
use stunner.Base.Result.{Error, Result, ok, err}
use stunner.Base.Method.{Outcome, Method, done, failed, ◌>>=◌, state_of}
use stunner.Identity.{discovery_key}
use stunner.Crypto.Primitives.{Primitives, Codec}
use stunner.Messaging.{Frame}
use stunner.Transport.{Conn}
use stunner.Node.{Node, Link, handshake_initiator, handshake_responder}

-- signaling.Signaler and transport.Transport, as far as the two call them, with one state `S`. A
-- connection is made in the state in which its two ends find it.
pub record Network (S W : Type 0) : Type 0 where
  pub find : Bytes → Method S Bytes
  pub advertise : Bytes → Method S (Unit {0})
  pub dial : Bytes → Method S W
  pub accept : Method S W

pub record World (S W D : Type 0) : Type 0 where
  pub signals : S
  pub node : Node W D

module _ {S W D : Type 0} where
  unfoldable pub with_signals : {A : Type 0} → World S W D → Outcome S A → Outcome (World S W D) A
  with_signals x (done a s) = done a (record x { signals = s })
  with_signals x (failed e s) = failed e (record x { signals = s })

  unfoldable pub on_signals : {A : Type 0} → Method S A → Method (World S W D) A
  on_signals m x = with_signals x (m x.signals)

  -- `conn.Close()` after a handshake that failed; its error is dropped.
  unfoldable pub close_failed :
      Conn W → World S W D → Outcome (Node W D) Link → Outcome (World S W D) Link
  close_failed conn x (done l n) = done l (record x { node = n })
  close_failed conn x (failed e n) =
      failed e (record x { node = record n { wire = state_of (conn.close n.wire) } })

  -- A handshake over a connection that has just been made.
  unfoldable pub over : Conn W → Method (Node W D) Link → W → Method (World S W D) Link
  over conn m w x = close_failed conn x (m (record x.node { wire = w }))

  module _ (p : Primitives) (f : Codec Frame) (conn : Conn W) (net : Network S W) where
    unfoldable pub connect : Result Bytes → Result Bytes → Bytes → Bytes → Method (World S W D) Link
    connect g g' peer_identity salt = do
      peer ← on_signals (net.find (discovery_key p peer_identity salt))
      w ← on_signals (net.dial peer)
      over conn (handshake_initiator p f conn g g' peer_identity) w

    unfoldable pub advertise_self : Bytes → Method (World S W D) (Unit {0})
    advertise_self salt x =
        on_signals (net.advertise (discovery_key p x.node.account.identity.signing_pub salt)) x

    unfoldable pub listen : (W → W) → Bytes → Method (World S W D) Link
    listen peer salt = do
      u ← advertise_self salt
      w ← on_signals net.accept
      over conn (handshake_responder p f conn peer) w
