-- ===== src/Transport/Pion/Closing.antt =====
-- No call of Dial or Accept leaves a peer connection open that it does not return.
use stunner.Base.{suc, ◌+◌, ◌≡◌, refl, [], ◌∷◌, ◌++◌, arith}
use stunner.Base.Bytes.{Bytes}
use stunner.Base.Result.{Result, ok, err, or_err, bad_json}
use stunner.Base.Method.{Method, Outcome, done, failed, ◌>>=◌}
use stunner.Transport.Pion.{
  PionConn, Peers, Calls, or_close, make_peer, send_local, pion_dial, pion_accept, wait_open,
  inbound,
}

module _ (peer_id : Bytes) (sdp : Bytes) (s : Peers) where
  -- A connection that is returned is the one that was made and is not closed, and one description
  -- went out, to the peer; a failure leaves as many peer connections open as there were.
  abbrev pub Settled : Outcome Peers PionConn → Type 0
  Settled (done c t) =
      (t.made ≡ suc s.made) × (t.shut ≡ s.shut) × (t.sent ≡ s.sent ++ (peer_id, sdp) ∷ [])
  Settled (failed e t) = t.made + s.shut ≡ s.made + t.shut

  -- One connection has been made.
  abbrev Begun : Peers → Type 0
  Begun t = (t.made ≡ suc s.made) × (t.shut ≡ s.shut)

  or_close-Settled :
      {A : Type 0} (r : Result A) (k : A → Method Peers PionConn) (t : Peers)
      → Begun t
      → ((a : A) → Settled (k a t))
      → Settled ((or_close r >>= k) t)
  unfolding or_close
  or_close-Settled (ok a) k t begun later = later a
  or_close-Settled (err e) k t (m, c) later = omega (arith, m, c)

  send_local-Settled :
      (r : Result (Unit {0})) (k : Unit {0} → Method Peers PionConn) (t : Peers)
      → Begun t
      → Settled (k tt (record t { sent = t.sent ++ (peer_id, sdp) ∷ [] }))
      → Settled ((send_local peer_id sdp r >>= k) t)
  unfolding send_local or_close
  send_local-Settled (ok u) k t begun later = later
  send_local-Settled (err e) k t (m, c) later = omega (arith, m, c)

  make_peer-Settled :
      (r : Result (Unit {0})) (k : Unit {0} → Method Peers PionConn)
      → Settled (k tt (record s { made = suc s.made }))
      → Settled ((make_peer r >>= k) s)
  unfolding make_peer
  make_peer-Settled (ok u) k later = later
  make_peer-Settled (err e) k later = refl

module _ (k : Calls) (s : Peers) where
  -- Whatever pion, the signaler and the clock answer: when Dial or Accept fails, as many peer
  -- connections are open as before; when it returns a connection, the one that it made is open and
  -- one description went out, the local one, from Dial to the peer that is named and from Accept to
  -- the empty name.
  pub pion_dial-pion_accept :
      (peer_id : Bytes)
      → Settled peer_id k.local s (pion_dial peer_id k s) × Settled [] k.local s (pion_accept k s)
  unfolding pion_dial pion_accept
  pion_dial-pion_accept peer_id = (
    make_peer-Settled peer_id k.local s k.create _ (
        or_close-Settled peer_id k.local s k.channel _ _ (refl, refl)
          λ u.
            or_close-Settled peer_id k.local s k.describe _ _ (refl, refl)
              λ u.
                or_close-Settled peer_id k.local s k.gather _ _ (refl, refl)
                  λ u.
                    send_local-Settled peer_id k.local s k.send _ _ (refl, refl)
                      (or_close-Settled peer_id k.local s k.remote _ _ (refl, refl)
                        λ answer.
                          or_close-Settled peer_id k.local s (or_err (k.parsed answer) bad_json) _ _
                            (refl, refl)
                            λ u.
                              or_close-Settled peer_id k.local s k.set_remote _ _ (refl, refl)
                                λ u.
                                  or_close-Settled peer_id k.local s (wait_open k.awaited) _ _
                                    (refl, refl) λ u. (refl, refl, refl))),
    make_peer-Settled [] k.local s k.create _ (
        or_close-Settled [] k.local s k.remote _ _ (refl, refl)
          λ offer.
            or_close-Settled [] k.local s (or_err (k.parsed offer) bad_json) _ _ (refl, refl)
              λ u.
                or_close-Settled [] k.local s k.set_remote _ _ (refl, refl)
                  λ u.
                    or_close-Settled [] k.local s k.describe _ _ (refl, refl)
                      λ u.
                        or_close-Settled [] k.local s k.gather _ _ (refl, refl)
                          λ u.
                            send_local-Settled [] k.local s k.send _ _ (refl, refl)
                              (or_close-Settled [] k.local s (inbound k.arrived) _ _ (refl, refl)
                                λ u.
                                  or_close-Settled [] k.local s (wait_open k.awaited) _ _
                                    (refl, refl) λ u. (refl, refl, refl))),
  )
