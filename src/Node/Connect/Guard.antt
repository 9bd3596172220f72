-- ===== src/Node/Connect/Guard.antt =====
-- Whom a link that Connect makes is with.
use stunner.Base.{
  ℕ, arith, ◌≡◌, Bool, false, refl, sym, ap, ◌∙◌, true, some, none, Option, length, [],
}
use stunner.Base.Bytes.{Bytes}
use stunner.Base.Eq.{bytes_eq, bytes_eq_iff}
use stunner.Base.Result.{
  Error, Result, ok, err, check, check-ok, or_err, nil_pointer, missing_bundle, identity_mismatch,
}
use stunner.Base.Method.{Outcome, done, failed, lift, state_of, >>=-done_inv, lift-done_inv}
use stunner.Identity.{discovery_key, fingerprint, verify_signature}
use stunner.Crypto.Primitives.{Primitives, Codec}
use stunner.Crypto.Ratchet.{new_ratchet_initiator, Ratchet}
use stunner.Crypto.Session.{
  MemStore, Session, Handshake, initiate, initiated, handshake_of, add_session, associated_data,
  get_elem?, get_elem?-append_last,
}
use stunner.Crypto.X3dh.{PreKeyBundle, Initiation, x3dh_initiate}
use stunner.Messaging.{Frame, encode_frame, decode_frame, bundle_frame, handshake_frame}
use stunner.Transport.{Conn}
use stunner.Node.{
  Node, Link, with_sessions, on_sessions, link_to, recv_frame, send_frame, on_wire, with_wire,
  start_session, handshake_initiator,
}
use stunner.Node.Steps.{recv_frame_ok}
use stunner.Node.Connect.{Network, World, with_signals, on_signals, close_failed, over, connect}

passed_check : (t : Bool) (e : Error) {u : Unit {0}} → check t e ≡ ok u → t ≡ true
passed_check true e h = refl
passed_check false e h = absurd (cc)

some_injective : {s t : Session} → some s ≡ some t → s ≡ t
some_injective h = cc

module _ (p : Primitives) where
  x3dh_initiate-verified :
      (g : Result Bytes) (m : MemStore) (b : PreKeyBundle) {i : Initiation}
      → x3dh_initiate p g m.local b ≡ ok i
      → verify_signature p b.identity_sign b.signed_pre_key b.signed_pre_key_sig ≡ true
  unfolding x3dh_initiate
  x3dh_initiate-verified g m b h = (check-ok _ _ _ h).0

  -- What a successful `Initiate` did.
  record Initiated (b : PreKeyBundle) (m m' : MemStore) (h : ℕ) : Type 0 where
    verified : verify_signature p b.identity_sign b.signed_pre_key b.signed_pre_key_sig ≡ true
    session : Session
    found : get_elem? m'.heap h ≡ some session
    named : session.peer_fp ≡ fingerprint p b.identity_sign

  module _ (g' : Result Bytes) (b : PreKeyBundle) (m m' : MemStore) (h : ℕ) (hs : Handshake) where
    ratchet-Initiated :
        (i : Initiation) (r : Result Ratchet)
        → verify_signature p b.identity_sign b.signed_pre_key b.signed_pre_key_sig ≡ true
        → ◌≡◌ {A = Outcome MemStore (ℕ × Handshake)}
            (elim r [
              | err e ↦ failed e m
              | ok r ↦
                  done (length m.heap, handshake_of p m.local i) (add_session (initiated p m b r) m)
            ])
            (done (h, hs) m')
        → Initiated b m m' h
    ratchet-Initiated i (err e) v x = absurd (cc)
    ratchet-Initiated i (ok r) v x =
        let place : length m.heap ≡ h = cc in
        let store : add_session (initiated p m b r) m ≡ m' = cc in
        record {
          verified = v;
          session = initiated p m b r;
          found =
              unfold add_session in
              rw (← store, ← place) (get_elem?-append_last m.heap (initiated p m b r));
          named = unfold initiated in refl;
        }

    x3dh-Initiated :
        (o : Result Initiation)
        → ((i : Initiation)
            → o ≡ ok i
            → verify_signature p b.identity_sign b.signed_pre_key b.signed_pre_key_sig ≡ true)
        → ◌≡◌ {A = Outcome MemStore (ℕ × Handshake)}
            (elim o [
              | err e ↦ failed e m
              | ok i ↦
                  elim (new_ratchet_initiator p g' i.sk b.signed_pre_key
                    (associated_data m.local.signing_pub b.identity_sign)) [
                      | err e ↦ failed e m
                      | ok r ↦
                          done
                            (length m.heap, handshake_of p m.local i)
                            (add_session (initiated p m b r) m)
                    ]
            ])
            (done (h, hs) m')
        → Initiated b m m' h
    x3dh-Initiated (err e) v x = absurd (cc)
    x3dh-Initiated (ok i) v x = ratchet-Initiated i _ (v i refl) x

    initiate_inv : (g : Result Bytes) → initiate p g g' b m ≡ done (h, hs) m' → Initiated b m m' h
    unfolding initiate
    initiate_inv g e =
        x3dh-Initiated (x3dh_initiate p g m.local b) (λ i x. x3dh_initiate-verified g m b x) e

or_err-ok : {A : Type 0} (o : Option A) (e : Error) {a : A} → or_err o e ≡ ok a → o ≡ some a
or_err-ok none e h = absurd (cc)
or_err-ok (some a) e h = cc

module _ {W : Type 0} (f : Codec Frame) (conn : Conn W) where
  -- `b` is the bundle in the frame that the connection delivers on `w`.
  abbrev pub Delivers : W → PreKeyBundle → Type 0
  Delivers w b =
      (raw : Bytes) × (frame : Frame) × (w' : W) × (conn.recv w ≡ done raw w')
      × (decode_frame f raw ≡ ok frame)
      × (frame.bundle ≡ some b)

module _ {W D : Type 0} (p : Primitives) (f : Codec Frame) (conn : Conn W) where
  on_sessions_inv :
      {A : Type 0} (o : Outcome MemStore A) (n n' : Node W D) {a : A}
      → with_sessions n o ≡ done a n'
      → (m : MemStore) × (o ≡ done a m) × (n' ≡ record n { sessions = m })
  unfolding with_sessions
  on_sessions_inv (done a m) n n' h = (m, cc, cc)
  on_sessions_inv (failed e m) n n' h = absurd (cc)

  on_wire_inv :
      {A : Type 0} (o : Outcome W A) (n n' : Node W D) {a : A}
      → with_wire n o ≡ done a n'
      → n'.sessions ≡ n.sessions
  unfolding with_wire
  on_wire_inv (done a w) n n' h = cc
  on_wire_inv (failed e w) n n' h = absurd (cc)

  with_wire_inv :
      {A : Type 0} (o : Outcome W A) (n n' : Node W D) {a : A}
      → with_wire n o ≡ done a n'
      → (w : W) × (o ≡ done a w)
  unfolding with_wire
  with_wire_inv (done a w) n n' h = (w, cc)
  with_wire_inv (failed e w) n n' h = absurd (cc)

  link_of :
      (o : Option Session) (h : ℕ) (key : Bytes) (n n' : Node W D) (l : Link)
      → ◌≡◌ {A = Outcome (Node W D) Link}
          (elim o [
            | none ↦ failed nil_pointer n
            | some s ↦ done (record { session = h; peer_fp = s.peer_fp; peer_key = key }) n
          ])
          (done l n')
      → (s : Session) × (o ≡ some s) × (l.peer_fp ≡ s.peer_fp) × (l.peer_key ≡ key)
  link_of none h key n n' l x = absurd (cc)
  link_of (some s) h key n n' l x =
      let same : record { session = h; peer_fp = s.peer_fp; peer_key = key } ≡ l = cc in
      (s, refl, ap (λ (k : Link). k.peer_fp) (sym same), ap (λ (k : Link). k.peer_key) (sym same))

  start_session_inv :
      (g g' : Result Bytes) (b : PreKeyBundle) (key : Bytes) (n n' : Node W D) (l : Link)
      → start_session p f conn g g' b key n ≡ done l n'
      → (verify_signature p b.identity_sign b.signed_pre_key b.signed_pre_key_sig ≡ true)
        × (l.peer_fp ≡ fingerprint p b.identity_sign)
        × (l.peer_key ≡ key)
  unfolding start_session on_sessions link_to with_wire send_frame on_wire
  start_session_inv g g' b key n n' l x =
      let (a, n1, e1, x1) = >>=-done_inv (with_sessions n (initiate p g g' b n.sessions)) _ x in
      let (m, made, at1) = on_sessions_inv (initiate p g g' b n.sessions) n n1 e1 in
      let (u, n2, e2, x2) = >>=-done_inv (send_frame f conn (handshake_frame a.1 []) n1) _ x1 in
      let i = initiate_inv p g' b n.sessions m a.0 a.1 g made in
      let (s, found, fp, k) = link_of (get_elem? n2.sessions.heap a.0) a.0 key n2 n' l x2 in
      let same : n2.sessions ≡ m =
        on_wire_inv (conn.send (encode_frame f (handshake_frame a.1 [])) n1.wire) n1 n2 e2
        ∙ ap (λ (k : Node W D). k.sessions) at1 in
      let here : s ≡ i.session =
        some_injective (sym found ∙ ap (λ (k : MemStore). get_elem? k.heap a.0) same ∙ i.found) in
      (i.verified, fp ∙ ap (λ (k : Session). k.peer_fp) here ∙ i.named, k)

  -- The frame is what the connection delivered, decoded.
  recv_frame_inv :
      (n n' : Node W D) (x : Frame)
      → recv_frame f conn n ≡ done x n'
      → (raw : Bytes) × (w : W) × (conn.recv n.wire ≡ done raw w) × (decode_frame f raw ≡ ok x)
  unfolding recv_frame on_wire
  recv_frame_inv n n' x h =
      let (raw, n1, e1, x1) = >>=-done_inv (with_wire n (conn.recv n.wire)) _ h in
      let (r, at1) = lift-done_inv (decode_frame f raw) n1 x1 in
      let (w, got) = with_wire_inv (conn.recv n.wire) n n1 e1 in (raw, w, got, r)

  -- Whatever the connection delivers: if the initiator's handshake succeeds, then the first frame
  -- has a bundle, which is signed under the expected key, and the link carries this key and its
  -- fingerprint.
  pub handshake_initiator_inv :
      (g g' : Result Bytes) (key : Bytes) (n n' : Node W D) (l : Link)
      → handshake_initiator p f conn g g' key n ≡ done l n'
      → (b : PreKeyBundle) × Delivers f conn n.wire b
        × (b.identity_sign ≡ key)
        × (verify_signature p key b.signed_pre_key b.signed_pre_key_sig ≡ true)
        × (l.peer_fp ≡ fingerprint p key)
        × (l.peer_key ≡ key)
  unfolding handshake_initiator
  handshake_initiator_inv g g' key n n' l h =
      let (x, n1, e1, x1) = >>=-done_inv (recv_frame f conn n) _ h in
      let (b, n2, e2, x2) = >>=-done_inv (lift (or_err x.bundle missing_bundle) n1) _ x1 in
      let (u, n3, e3, x3) =
        >>=-done_inv (lift (check (bytes_eq b.identity_sign key) identity_mismatch) n2) _ x2 in
      let (t, same) =
        lift-done_inv (check (bytes_eq b.identity_sign key) identity_mismatch) n2 e3 in
      let is_key = (bytes_eq_iff b.identity_sign key).0 (passed_check _ _ t) in
      let (v, fp, k) = start_session_inv g g' b key n3 n' l x3 in
      let (raw, w, got, read) = recv_frame_inv n n1 x e1 in
      let (has, _) = lift-done_inv (or_err x.bundle missing_bundle) n1 e2 in
      (
        b,
        (raw, x, w, got, read, or_err-ok x.bundle missing_bundle has),
        is_key,
        rw (← is_key) v,
        fp ∙ ap (fingerprint p) is_key,
        k,
      )

  module _ {S : Type 0} (net : Network S W) where
    on_signals_inv :
        {A : Type 0} (o : Outcome S A) (x x' : World S W D) {a : A}
        → with_signals x o ≡ done a x'
        → o ≡ done a x'.signals
    unfolding with_signals
    on_signals_inv (done a s) x x' h = cc
    on_signals_inv (failed e s) x x' h = absurd (cc)

    close_failed_inv :
        (o : Outcome (Node W D) Link) (x x' : World S W D) {l : Link}
        → close_failed conn x o ≡ done l x'
        → o ≡ done l x'.node
    unfolding close_failed
    close_failed_inv (done l n) x x' h = cc
    close_failed_inv (failed e n) x x' h = absurd (cc)

    -- A link that Connect makes is with the holder of the expected key, whatever the network, the
    -- connection and the other end do: Connect looks up the discovery key of the expected key and
    -- the salt and dials the peer that this names; the first frame that the connection delivers
    -- has a bundle, whose identity key is the expected one and whose signed prekey has a signature
    -- that verifies under that key; the link carries that key and its fingerprint.
    pub connect_guarded :
        (g g' : Result Bytes) (key salt : Bytes) (x x' : World S W D) (l : Link)
        → connect p f conn net g g' key salt x ≡ done l x'
        → (b : PreKeyBundle) × (peer : Bytes) × (w : W) × (s s' : S) × (net.find
              (discovery_key p key salt)
              x.signals
            ≡ done peer s)
          × (net.dial peer s ≡ done w s')
          × Delivers f conn w b
          × (b.identity_sign ≡ key)
          × (verify_signature p key b.signed_pre_key b.signed_pre_key_sig ≡ true)
          × (l.peer_fp ≡ fingerprint p key)
          × (l.peer_key ≡ key)
    unfolding connect over on_signals
    connect_guarded g g' key salt x x' l h =
        let (peer, x1, e1, h1) =
          >>=-done_inv (with_signals x (net.find (discovery_key p key salt) x.signals)) _ h in
        let (w, x2, e2, h2) = >>=-done_inv (with_signals x1 (net.dial peer x1.signals)) _ h1 in
        let made =
          close_failed_inv (handshake_initiator p f conn g g' key (record x2.node { wire = w })) x2
            x' h2 in
        let (b, got, is_key, v, fp, k) =
          handshake_initiator_inv g g' key (record x2.node { wire = w }) x'.node l made in
        (
          b,
          peer,
          w,
          x1.signals,
          x2.signals,
          on_signals_inv (net.find (discovery_key p key salt) x.signals) x x1 e1,
          on_signals_inv (net.dial peer x1.signals) x1 x2 e2,
          got,
          is_key,
          v,
          fp,
          k,
        )

    -- A peer that is found and dialed, and that presents a bundle with another identity key, is
    -- refused with ErrIdentityMismatch: nothing is sent to it, the connection is closed, and the
    -- node's sessions and store are what they were.
    pub connect-other_key :
        (g g' : Result Bytes) (key salt peer : Bytes) (b : PreKeyBundle) (s s' : S) (w w' : W)
        (x : World S W D)
        → net.find (discovery_key p key salt) x.signals ≡ done peer s
        → net.dial peer s ≡ done w s'
        → conn.recv w ≡ done (f.marshal (bundle_frame b)) w'
        → bytes_eq b.identity_sign key ≡ false
        → connect p f conn net g g' key salt x
          ≡ failed identity_mismatch
              (record { signals = s'; node = record x.node { wire = state_of (conn.close w') } })
    unfolding connect over on_signals with_signals close_failed handshake_initiator
    connect-other_key g g' key salt peer b s s' w w' x found dialed got other = ground (
      arith,
      found,
      dialed,
      recv_frame_ok f conn (record x.node { wire = w }) (bundle_frame b) w' got,
      other,
    )

    -- A handshake that succeeds is the link that Connect returns.
    pub connect_ok :
        (g g' : Result Bytes) (key salt peer : Bytes) (s s' : S) (w : W) (x : World S W D)
        (l : Link) (n : Node W D)
        → net.find (discovery_key p key salt) x.signals ≡ done peer s
        → net.dial peer s ≡ done w s'
        → handshake_initiator p f conn g g' key (record x.node { wire = w }) ≡ done l n
        → connect p f conn net g g' key salt x ≡ done l (record { signals = s'; node = n })
    unfolding connect over on_signals with_signals close_failed
    connect_ok g g' key salt peer s s' w x l n found dialed made =
        ground (arith, found, dialed, made)
