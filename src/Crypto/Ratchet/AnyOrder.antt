-- ===== src/Crypto/Ratchet/AnyOrder.antt =====
-- A chain of messages between two ratchets, delivered in any order.
use stunner.Base.{
  ℕ, zero, suc, ◌+◌, ◌^◌, ◌<◌, ◌≤◌, ◌≡◌, ◌≢◌, refl, ap, subst, ◌∙◌, Bool, false, List, [], ◌∷◌,
  arith, ltb, inl, inr, Bool-cases, map, length,
}
use stunner.Base.Bytes.{Bytes, All, IsByte}
use stunner.Base.Result.{Result}
use stunner.Base.Method.{Method, done, ◌>>=◌, return, >>=-done}
use stunner.Crypto.Primitives.{Primitives, Codec}
use stunner.Crypto.Ratchet.Chain.{Chain, Sends, message_at, encrypt-Sends, advance-Sends}
use stunner.Crypto.Ratchet.Delivery.{Receives, mark, take_skipped, take_new}
use stunner.Crypto.Ratchet.{Ratchet, WireMessage, encrypt, decrypt, advance_sending}

-- The entry at place `k`.
abbrev pub entry : List Bytes → ℕ → Bytes
entry [] k = []
entry (x ∷ xs) zero = x
entry (x ∷ xs) (suc k) = entry xs k

-- The entries at the places `ks`, in that order.
abbrev pub select : List ℕ → List Bytes → List Bytes
select ks xs = map (entry xs) ks

-- No place twice.
abbrev pub Distinct : List ℕ → Type 0
Distinct [] = Unit {0}
Distinct (k ∷ ks) = All (λ j. k ≢ j) ks × Distinct ks

module _ (p : Primitives) (c : Codec WireMessage) where
  pub send_all : List Bytes → Method Ratchet (List Bytes)
  send_all [] = return []
  send_all (m ∷ ms) = do w ← encrypt p c m; ws ← send_all ms; return (w ∷ ws)

  pub receive_all : Result Bytes → List Bytes → Method Ratchet (List Bytes)
  receive_all fresh [] = return []
  receive_all fresh (w ∷ ws) = do
    m ← decrypt p c fresh w
    ms ← receive_all fresh ws
    return (m ∷ ms)

module _ (p : Primitives) (c : Codec WireMessage) (ch : Chain) where
  messages_from : ℕ → List Bytes → List Bytes
  messages_from i [] = []
  messages_from i (m ∷ ms) = message_at p c ch i m ∷ messages_from (suc i) ms

  -- The sender writes the messages of its chain, one counter after the other.
  send_all-Sends :
      (ms : List Bytes) (i : ℕ) (s : Ratchet)
      → i + length ms < 2 ^ 32
      → Sends p ch i s
      → (s' : Ratchet) × (send_all p c ms s ≡ done (messages_from i ms) s')
        × Sends p ch (i + length ms) s'
  unfolding send_all messages_from
  send_all-Sends [] i s h v = (s, refl, subst (λ k. Sends p ch k s) (omega arith) v)
  send_all-Sends (m ∷ ms) i s h v =
      let (s', e, w) =
        send_all-Sends ms (suc i) (advance_sending p c s) (omega arith)
          (advance-Sends p c ch i s (omega arith) v) in
      (
        s',
        >>=-done (encrypt p c m) (λ x. send_all p c ms >>= λ ws. return (x ∷ ws))
              (encrypt-Sends p c ch i s m v)
            ∙ >>=-done (send_all p c ms) (λ ws. return (message_at p c ch i m ∷ ws)) e,
        subst (λ k. Sends p ch k s') (omega arith) w,
      )

  entry-messages_from :
      (ms : List Bytes) (i k : ℕ)
      → k < length ms
      → entry (messages_from i ms) k ≡ message_at p c ch (i + k) (entry ms k)
  unfolding messages_from
  entry-messages_from [] i k h = absurd (omega arith)
  entry-messages_from (m ∷ ms) i zero h = ap (λ j. message_at p c ch j m) (omega arith)
  entry-messages_from (m ∷ ms) i (suc k) h =
      entry-messages_from ms (suc i) k (omega arith)
      ∙ ap (λ j. message_at p c ch j (entry ms k)) (omega arith)

module _ (p : Primitives) (c : Codec WireMessage) (ch : Chain) (bytes : All IsByte ch.dh)
    (fresh : Result Bytes) where
  -- One message within the limit, delivered for the first time.
  deliver :
      (got : ℕ → Bool) (i top : ℕ) (m : Bytes) (r : Ratchet)
      → i ≤ top
      → top ≤ r.nr + 1000
      → r.nr ≤ top + 1
      → top + 1002 < 2 ^ 32
      → got i ≡ false
      → Receives p ch got r
      → (s : Ratchet) × (decrypt p c fresh (message_at p c ch i m) r ≡ done m s)
        × Receives p ch (mark i got) s
        × (top ≤ s.nr + 1000)
        × (s.nr ≤ top + 1)
  deliver got i top m r le near low room new v = elim (Bool-cases (ltb i r.nr)) [
    | inl old ↦
        let (s, e, w, n) =
          take_skipped p c ch bytes fresh got i m r (ground arith) (omega arith) new v in
        (s, e, w, omega arith, omega arith)
    | inr at_end ↦
        let (s, e, w, n) =
          take_new p c ch bytes fresh got i m r (ground arith) (omega arith) (omega arith) new v in
        (s, e, w, ground arith, omega arith)
  ]

  mark_others :
      (got : ℕ → Bool) (i k : ℕ) (ks : List ℕ)
      → All (λ j. k ≢ j) ks
      → All (λ j. got (i + j) ≡ false) ks
      → All (λ j. mark (i + k) got (i + j) ≡ false) ks
  mark_others got i k [] d n = tt
  mark_others got i k (j ∷ ks) d n = (ground (arith, d.0), mark_others got i k ks d.1 n.1)

  deliver_each :
      (ms : List Bytes) (i : ℕ) (ks : List ℕ) (got : ℕ → Bool) (top : ℕ) (r : Ratchet)
      → Distinct ks
      → All (λ k. k < length ms) ks
      → All (λ k. got (i + k) ≡ false) ks
      → i + length ms ≤ top + 1
      → top ≤ r.nr + 1000
      → r.nr ≤ top + 1
      → top + 1002 < 2 ^ 32
      → Receives p ch got r
      → (s : Ratchet) × (receive_all p c fresh (select ks (messages_from p c ch i ms)) r
          ≡ done (select ks ms) s)
  unfolding receive_all
  deliver_each ms i [] got top r d b n cover near low room v = (r, refl)
  deliver_each ms i (k ∷ ks) got top r d b n cover near low room v =
      let (s, e, w, near', low') =
        deliver got (i + k) top (entry ms k) r (omega (arith, b.0)) near low room n.0 v in
      let (s', e') =
        deliver_each ms i ks (mark (i + k) got) top s d.1 b.1 (mark_others got i k ks d.0 n.1) cover
          near' low' room w in
      (
        s',
        >>=-done (decrypt p c fresh (entry (messages_from p c ch i ms) k))
              (λ m. receive_all p c fresh (select ks (messages_from p c ch i ms)) >>= λ rest.
                return (m ∷ rest))
              (rw (entry-messages_from p c ch ms i k b.0) e)
            ∙ >>=-done (receive_all p c fresh (select ks (messages_from p c ch i ms)))
                (λ rest. return (entry ms k ∷ rest)) e',
      )

-- A sender and a receiver that stand at the same counter of one chain, 1002 counters and the
-- messages short of 2^32: of at most 1000 messages that the sender encrypts, the receiver decrypts
-- any, in any order, each once. Every one of them comes out as it went in, whichever are left out
-- or come late.
pub receive-send_any_order :
    (p : Primitives) (c : Codec WireMessage) (ch : Chain) (fresh : Result Bytes) (s r : Ratchet)
    (messages : List Bytes) (order : List ℕ)
    → All IsByte ch.dh
    → Sends p ch r.nr s
    → Receives p ch (λ j. ltb j r.nr) r
    → length messages ≤ 1000
    → r.nr + length messages + 1002 < 2 ^ 32
    → Distinct order
    → All (λ k. k < length messages) order
    → (wires : List Bytes) × (s' : Ratchet) × (r' : Ratchet) × (send_all p c messages s
        ≡ done wires s')
      × (receive_all p c fresh (select order wires) r ≡ done (select order messages) r')
receive-send_any_order p c ch fresh s r ms ks bytes sends receives few room d b =
    let (s', e, _) = send_all-Sends p c ch ms r.nr s (omega arith) sends in
    let (r', e') =
      deliver_each p c ch bytes fresh ms r.nr ks (λ j. ltb j r.nr) (r.nr + length ms) r d b
        (not_got r.nr ks) (omega arith) (omega arith) (omega arith) (omega arith) receives in
    (messages_from p c ch r.nr ms, s', r', e, e')
  where
    not_got : (i : ℕ) (js : List ℕ) → All (λ k. ltb (i + k) i ≡ false) js
    not_got i [] = tt
    not_got i (j ∷ js) = (ground arith, not_got i js)
