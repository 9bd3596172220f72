-- ===== src/Transport/Pion/Drain.antt =====
-- What the reader of a connection over WebRTC still gets after the connection has ended.
use stunner.Base.{
  ℕ, zero, suc, ◌+◌, ◌≤◌, ◌≡◌, ◌∙◌, refl, sym, ap, Bool, true, false, List, [], ◌∷◌, ◌++◌, map,
  replicate, ltb, length, if◌then◌else◌, arith,
}
use mathlib.Core.List.{append_assoc}
use stunner.Base.Bytes.{Bytes}
use stunner.Base.Result.{Result, ok, err, closed, would_block}
use stunner.Base.Method.{Method, Outcome, done, failed, result_of, state_of, ◌>>◌}
use stunner.Transport.Pion.{PionConn, in_size, close_done, on_message, take_in, pion_recv}

-- The callback of OnMessage, for each message and the choice of its select.
abbrev pub on_messages : List (Bool × Bytes) → Method PionConn (Unit {0})
on_messages [] c = done tt c
on_messages ((chosen, b) ∷ later) c = (on_message chosen b >> on_messages later) c

-- What a number of calls of Recv return.
abbrev pub recv_times : ℕ → PionConn → List (Result Bytes)
recv_times zero c = []
recv_times (suc n) c = result_of (pion_recv c) ∷ recv_times n (state_of (pion_recv c))

append_end : (q : List Bytes) → q ++ [] ≡ q
append_end [] = refl
append_end (b ∷ q) = ap (λ l. b ∷ l) (append_end q)

recv_next :
    (b : Bytes) (bs : List Bytes) (n : ℕ) (c : PionConn)
    → c.in_queue ≡ b ∷ bs
    → recv_times (suc n) c ≡ ok b ∷ recv_times n (record c { in_queue = bs })
unfolding pion_recv take_in
recv_next b bs n c e = ap (λ q. result_of (take_in q c) ∷ recv_times n (state_of (take_in q c))) e

recv_nothing :
    (n : ℕ) (c : PionConn)
    → c.in_queue ≡ []
    → c.ended ≡ true
    → recv_times (suc n) c ≡ err closed ∷ recv_times n c
unfolding pion_recv take_in
recv_nothing n c e f =
    ap (λ q. result_of (take_in q c) ∷ recv_times n (state_of (take_in q c))) e
    ∙ ap (λ b. err (if b then closed else would_block) ∷ recv_times n c) f

recv_ended :
    (n : ℕ) (c : PionConn)
    → c.in_queue ≡ []
    → c.ended ≡ true
    → recv_times n c ≡ replicate n (err closed)
recv_ended zero c e f = refl
recv_ended (suc n) c e f = recv_nothing n c e f ∙ ap (λ l. err closed ∷ l) (recv_ended n c e f)

recv_queued :
    (queue : List Bytes) (n : ℕ) (c : PionConn)
    → c.in_queue ≡ queue
    → c.ended ≡ true
    → recv_times (length queue + n) c ≡ map ok queue ++ replicate n (err closed)
recv_queued [] n c e f =
    let none_more : 0 + n ≡ n = omega arith in
    ap (λ m. recv_times m c) none_more ∙ recv_ended n c e f
recv_queued (b ∷ bs) n c e f =
    let one_more : suc (length bs) + n ≡ suc (length bs + n) = omega arith in
    ap (λ m. recv_times m c) one_more
    ∙ recv_next b bs (length bs + n) c e
    ∙ ap (λ l. ok b ∷ l) (recv_queued bs n (record c { in_queue = bs }) refl f)

-- The queue of `c` becomes `queue`, and nothing else changes that Recv or the select looks at.
abbrev Queued : List Bytes → PionConn → Type 0
Queued queue c = (c.in_queue ≡ queue) × (c.ended ≡ false)

on_message_room :
    (chosen : Bool) (b : Bytes) (c : PionConn)
    → c.ended ≡ false
    → ltb (length c.in_queue) in_size ≡ true
    → on_message chosen b c ≡ done tt (record c { in_queue = c.in_queue ++ b ∷ [] })
unfolding on_message
on_message_room chosen b c e room = ground (arith, e, room)

length_more : (q : List Bytes) (b : Bytes) → length (q ++ b ∷ []) ≡ suc (length q)
length_more [] b = refl
length_more (x ∷ q) b = ap suc (length_more q b)

on_messages_next :
    (chosen : Bool) (b : Bytes) (later : List (Bool × Bytes)) (c t : PionConn)
    → on_message chosen b c ≡ done tt t
    → on_messages ((chosen, b) ∷ later) c ≡ on_messages later t
on_messages_next chosen b later c t e =
    ap {A = Outcome PionConn (Unit {0})}
      (λ o. elim o [ done u s ↦ on_messages later s | failed x s ↦ failed x s ]) e

on_messages_queue :
    (messages : List (Bool × Bytes)) (c : PionConn)
    → c.ended ≡ false
    → length c.in_queue + length messages ≤ 64
    → (t : PionConn) × (on_messages messages c ≡ done tt t)
      × Queued (c.in_queue ++ map (λ m. m.1) messages) t
on_messages_queue [] c e h = (c, refl, (sym (append_end c.in_queue), e))
on_messages_queue ((chosen, b) ∷ later) c e h =
    let room : ltb (length c.in_queue) 64 ≡ true = ground arith in
    let longer : length (c.in_queue ++ b ∷ []) + length later ≤ 64 =
      rw (length_more c.in_queue b) (omega arith) in
    let (t, a, (q, f)) =
      on_messages_queue later (record c { in_queue = c.in_queue ++ b ∷ [] }) e longer in
    (
      t,
      on_messages_next chosen b later c _ (on_message_room chosen b c e room) ∙ a,
      (q ∙ append_assoc c.in_queue (b ∷ []) (map (λ m. m.1) later), f),
    )

length-contents :
    (messages : List (Bool × Bytes)) → length (map (λ m. m.1) messages) ≡ length messages
length-contents [] = refl
length-contents (m ∷ later) = ap suc (length-contents later)

map-contents :
    (messages : List (Bool × Bytes))
    → map {B = Result Bytes} ok (map (λ m. m.1) messages) ≡ map (λ m. ok m.1) messages
map-contents [] = refl
map-contents (m ∷ later) = ap (λ l. ok m.1 ∷ l) (map-contents later)

-- Messages, at most 64, come over a connection that is not ended and has none queued, and then the
-- connection ends: whatever the selects choose, the callbacks all go through, and Recv returns first
-- every message, in order, and then ErrClosed, however often it is called.
pub recv_times-on_messages :
    (messages : List (Bool × Bytes)) (n : ℕ) (c : PionConn)
    → c.in_queue ≡ []
    → c.ended ≡ false
    → length messages ≤ 64
    → (t : PionConn) × (on_messages messages c ≡ done tt t)
      × (recv_times (length messages + n) (close_done t)
          ≡ map (λ m. ok m.1) messages ++ replicate n (err closed))
unfolding close_done
recv_times-on_messages messages n c empty go_on h =
    let few : length c.in_queue + length messages ≤ 64 = omega (arith, ap length empty) in
    let (t, a, (q, f)) = on_messages_queue messages c go_on few in
    let all : t.in_queue ≡ map (λ m. m.1) messages =
      q ∙ ap (λ x. x ++ map (λ m. m.1) messages) empty in
    (
      t,
      a,
      ap (λ m. recv_times (m + n) (close_done t)) (sym (length-contents messages))
          ∙ recv_queued (map (λ m. m.1) messages) n (close_done t) all refl
          ∙ ap (λ l. l ++ replicate n (err closed)) (map-contents messages),
    )
