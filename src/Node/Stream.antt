-- ===== src/Node/Stream.antt =====
-- Envelopes that one side of an established link sends, and the other receives.
use stunner.Base.{
  ℕ, zero, suc, ◌+◌, ◌^◌, ◌<◌, ◌≤◌, ◌≡◌, refl, ap, subst, ◌∙◌, Bool, true, false, Option, List, [],
  ◌∷◌, ◌++◌, length, length-append, some, arith, if◌then◌else◌,
}
use mathlib.Core.List.{append_assoc}
use stunner.Base.Bytes.{Bytes, All, IsByte}
use stunner.Base.Result.{Result, ok}
use stunner.Base.Method.{Method, done, return, ◌>>=◌, ◌>>◌, >>=-done}
use stunner.Crypto.Primitives.{Primitives, Codec}
use stunner.Crypto.Ratchet.{WireMessage}
use stunner.Crypto.Ratchet.Chain.{Chain, message_at}
use stunner.Crypto.Session.Stream.{
  SendsOn, ReadsOn, session_encrypt-SendsOn, session_decrypt-ReadsOn,
}
use stunner.Messaging.{Json, Envelope, Frame, payload_frame}
use stunner.Transport.{Conn, Pipe, End, pipe_conn, set_out}
use stunner.Transport.Fifo.{other_end}
use stunner.Transport.Open.{pipe_send_room, pipe_recv_next}
use stunner.Node.{
  Log, Node, Link, encrypt_send, persist, persistable, append_to, send_envelope, receive,
}
use stunner.Node.Steps.{encrypt_send_ok, receive_ok}

module _ {W D : Type 0} (p : Primitives) (c : Codec WireMessage) (f : Codec Frame)
    (j : Json Envelope) where
  -- Envelopes sent one after the other, and a number of them received.
  unfoldable pub send_each : Conn W → Log D → Link → List Envelope → Method (Node W D) (Unit {0})
  send_each conn log l [] = return tt
  send_each conn log l (env ∷ envs) =
      send_envelope p c f j conn log l env >> send_each conn log l envs

  unfoldable pub receive_each :
      Conn W → (ℕ → Result Bytes) → Link → ℕ → ℕ → Method (Node W D) (List Envelope)
  receive_each conn fresh l n zero = return []
  receive_each conn fresh l n (suc count) = do
    env ← receive p c f j conn (fresh n) l
    envs ← receive_each conn fresh l (suc n) count
    return (env ∷ envs)

-- What a store holds after envelopes were sent: those of a persistable type are appended.
unfoldable pub recorded : {D : Type 0} → Log D → List Envelope → Option D → Option D
recorded log [] s = s
recorded log (env ∷ envs) s =
    recorded log envs (if persistable env.kind then append_to log env s else s)

-- `ts` are the texts of the envelopes.
pub data Texts (j : Json Envelope) : List Envelope → List Bytes → Type 0 where
  no_texts : Texts j [] []
  text :
      {envs : List Envelope} {ts : List Bytes} (env : Envelope) (t : Bytes)
      → j.marshal env ≡ ok t
      → j.unmarshal t ≡ some env
      → Texts j envs ts
      → Texts j (env ∷ envs) (t ∷ ts)

pub fits-Texts :
    (j : Json Envelope) (envs : List Envelope)
    → All (λ env. j.fits env ≡ true) envs
    → (ts : List Bytes) × Texts j envs ts
fits-Texts j [] fits = ([], no_texts)
fits-Texts j (env ∷ envs) fits =
    let (t, m, u) = j.unmarshal-marshal env fits.0 in
    let (ts, rest) = fits-Texts j envs fits.1 in (t ∷ ts, text env t m u rest)

pub length-Texts :
    {j : Json Envelope} {envs : List Envelope} {ts : List Bytes}
    → Texts j envs ts
    → length ts ≡ length envs
length-Texts no_texts = refl
length-Texts (text env t m u rest) = ap suc (length-Texts rest)

pub append_nil : (xs : List Bytes) → xs ++ [] ≡ xs
append_nil [] = refl
append_nil (x ∷ xs) = ap (λ l. x ∷ l) (append_nil xs)

module _ (p : Primitives) (c : Codec WireMessage) (f : Codec Frame) (ch : Chain) where
  -- The frames of texts, from counter `n` on.
  unfoldable pub frames : ℕ → List Bytes → List Bytes
  frames n [] = []
  frames n (t ∷ ts) = f.marshal (payload_frame (message_at p c ch n t)) ∷ frames (suc n) ts

module _ {D : Type 0} (p : Primitives) (c : Codec WireMessage) (f : Codec Frame) (j : Json Envelope)
    (log : Log D) (ch : Chain) (k : Bytes) (l : Link) (d : Bool) (e : End) (w : Pipe)
    (is_open : w.is_closed ≡ false) where
  -- What sending leaves: the rest of the node, and the session one counter on.
  pub record Sent (n : ℕ) (q : List Bytes) (a : Node Pipe D) : Type 0 where
    pub sends : SendsOn p ch k l.session n a.sessions
    pub wire : a.wire ≡ set_out e q w

  pub send_next :
      (n : ℕ) (env : Envelope) (t : Bytes) (q : List Bytes) (a : Node Pipe D)
      → n + 1 < 2 ^ 32
      → length q < 64
      → j.marshal env ≡ ok t
      → Sent n q a
      → (a' : Node Pipe D) × (send_envelope p c f j (pipe_conn d e) log l env a ≡ done tt a')
        × Sent (suc n) (q ++ f.marshal (payload_frame (message_at p c ch n t)) ∷ []) a'
        × (a'.store ≡ (if persistable env.kind then append_to log env a.store else a.store))
  unfolding send_envelope persist pipe_conn
  send_next n env t q a room space m v =
      let (s', x, v', _) = session_encrypt-SendsOn p ch k l.session c n t a.sessions room v.sends in
      let y =
        pipe_send_room d e (f.marshal (payload_frame (message_at p c ch n t))) q w is_open space in
      (
        _,
        >>=-done (encrypt_send p c f j (pipe_conn d e) l env) (λ _. persist log env)
            (encrypt_send_ok p c f j (pipe_conn d e) a l env t _ s' _ m x (rw v.wire y)),
        record { sends = v'; wire = refl },
        refl,
      )

  pub send_each-Sent :
      {envs : List Envelope} {ts : List Bytes} (n : ℕ) (q : List Bytes) (a : Node Pipe D)
      → Texts j envs ts
      → n + length ts < 2 ^ 32
      → length q + length ts ≤ 64
      → Sent n q a
      → (a' : Node Pipe D) × (send_each p c f j (pipe_conn d e) log l envs a ≡ done tt a')
        × Sent (n + length ts) (q ++ frames p c f ch n ts) a'
        × (a'.store ≡ recorded log envs a.store)
  unfolding send_each frames recorded
  send_each-Sent n q a no_texts room space v =
      (a, refl, rw (append_nil q) (subst (λ i. Sent i q a) (omega arith) v), refl)
  send_each-Sent n q a (text {envs} {ts} env t m u rest) room space v =
      let x = f.marshal (payload_frame (message_at p c ch n t)) in
      let (a', sends, v', s) = send_next n env t q a (omega arith) (omega arith) m v in
      let (a'', e', v'', s') =
        send_each-Sent (suc n) (q ++ x ∷ []) a' rest (omega arith)
          (ground (arith, length-append q (x ∷ []))) v' in
      (
        a'',
        >>=-done (send_envelope p c f j (pipe_conn d e) log l env)
              (λ _. send_each p c f j (pipe_conn d e) log l envs) sends
            ∙ e',
        subst (λ i. Sent i (q ++ x ∷ frames p c f ch (suc n) ts) a'') (omega arith)
            (subst (λ z. Sent (suc n + length ts) z a'')
              (append_assoc q (x ∷ []) (frames p c f ch (suc n) ts)) v''),
        s' ∙ ap (λ o. recorded log envs o) s,
      )

module _ {D : Type 0} (p : Primitives) (c : Codec WireMessage) (f : Codec Frame) (j : Json Envelope)
    (ch : Chain) (k : Bytes) (l : Link) (d : Bool) (e : End) (w : Pipe) (fresh : ℕ → Result Bytes)
    (bytes : All IsByte ch.dh) (length_k : length k ≡ 32) (drawn : fresh 0 ≡ ok k) where
  pub record Awaits (n : ℕ) (q : List Bytes) (b : Node Pipe D) : Type 0 where
    pub reads : ReadsOn p ch k l.session n b.sessions
    pub wire : b.wire ≡ set_out e q w

  pub receive_next :
      (n : ℕ) (env : Envelope) (t : Bytes) (q : List Bytes) (b : Node Pipe D)
      → n + 1002 < 2 ^ 32
      → j.unmarshal t ≡ some env
      → Awaits n (f.marshal (payload_frame (message_at p c ch n t)) ∷ q) b
      → (b' : Node Pipe D) × (receive p c f j (pipe_conn d (other_end e)) (fresh n) l b
          ≡ done env b')
        × Awaits (suc n) q b'
  unfolding pipe_conn
  receive_next n env t q b room u v =
      let (m', x, v', _) =
        session_decrypt-ReadsOn p ch k l.session c n t (fresh n) b.sessions bytes length_k room
          (λ z. ap fresh z ∙ drawn) v.reads in
      let y = pipe_recv_next e (f.marshal (payload_frame (message_at p c ch n t))) q w in
      (
        _,
        receive_ok p c f j (pipe_conn d (other_end e)) b (fresh n) l env t _ m' _ (rw v.wire y) x u,
        record { reads = v'; wire = refl },
      )

  pub receive_each-Awaits :
      {envs : List Envelope} {ts : List Bytes} (n : ℕ) (q : List Bytes) (b : Node Pipe D)
      → Texts j envs ts
      → n + length ts + 1002 < 2 ^ 32
      → Awaits n (frames p c f ch n ts ++ q) b
      → (b' : Node Pipe D) × (receive_each p c f j
            (pipe_conn d (other_end e))
            fresh
            l
            n
            (length envs)
            b
          ≡ done envs b')
        × Awaits (n + length ts) q b'
  unfolding receive_each frames
  receive_each-Awaits n q b no_texts room v = (b, refl, subst (λ i. Awaits i q b) (omega arith) v)
  receive_each-Awaits n q b (text {envs} {ts} env t m u rest) room v =
      let (b', x, v') =
        receive_next n env t (frames p c f ch (suc n) ts ++ q) b (omega arith) u v in
      let (b'', x', v'') = receive_each-Awaits (suc n) q b' rest (omega arith) v' in
      (
        b'',
        >>=-done (receive p c f j (pipe_conn d (other_end e)) (fresh n) l) _ x
            ∙ >>=-done
                (receive_each p c f j (pipe_conn d (other_end e)) fresh l (suc n) (length envs)) _
                x',
        subst (λ i. Awaits i q b'') (omega arith) v'',
      )
