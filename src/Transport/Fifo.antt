-- ===== src/Transport/Fifo.antt =====
-- The pipe against an abstract connection: for each direction, the log of all that was ever sent
-- and how many of its entries have been received.
use stunner.Base.{
  ℕ, ◌-◌, ◌&&◌, ◌<◌, ◌≤◌, ◌≡◌, refl, zero, suc, Bool, true, false, Option, none, some, List, [],
  ◌∷◌, ◌++◌, ltb, length, drop, length-drop, length-append, if◌then◌else◌, arith,
}
use stunner.Base.Bytes.{Bytes}
use stunner.Base.Result.{Error, closed, would_block}
use stunner.Base.Method.{Outcome, done, failed}
use stunner.Crypto.Session.{get_elem?}
use stunner.Transport.{
  Pipe, End, end_a, end_b, new_pipe, pipe_send, pipe_recv, pipe_close, take_first, in_of, out_of,
  set_in, set_out, refusal, put_unless,
}

pub data Call : Type 0 where
  send : (prefers_done : Bool) (e : End) (b : Bytes) → Call
  recv : End → Call
  close : Call

-- What a call returns.
pub data Answer : Type 0 where
  nothing : Answer
  got : Bytes → Answer
  refused : Error → Answer

pub record Stream : Type 0 where
  pub sent : List Bytes
  pub taken : ℕ

pub record Wire : Type 0 where
  pub from_a : Stream
  pub from_b : Stream
  pub is_over : Bool

unfoldable pub stream_of : End → Wire → Stream
stream_of end_a s = s.from_a
stream_of end_b s = s.from_b

unfoldable pub set_stream : End → Stream → Wire → Wire
set_stream end_a x s = record s { from_a = x }
set_stream end_b x s = record s { from_b = x }

unfoldable pub other_end : End → End
other_end end_a = end_b
other_end end_b = end_a

unfoldable pub new_wire : Wire
new_wire = record {
  from_a = record { sent = []; taken = 0 };
  from_b = record { sent = []; taken = 0 };
  is_over = false;
}

-- A message is added to the log.
unfoldable pub log : Bytes → Stream → Stream
log b x = record x { sent = x.sent ++ b ∷ [] }

unfoldable pub advance : Stream → Stream
advance x = record x { taken = suc x.taken }

-- How many messages were sent and not received yet.
unfoldable pub waiting : Stream → ℕ
waiting x = length x.sent - x.taken

unfoldable pub accept_message : End → Bytes → Wire → Answer × Wire
accept_message e b s = (nothing, set_stream e (log b (stream_of e s)) s)

-- Where there is room a message is accepted, but may be refused as closed once Close was called;
-- without room it is refused as closed then, and would wait before.
unfoldable pub send_answer : (room is_over prefers_done : Bool) → End → Bytes → Wire → Answer × Wire
send_answer room is_over prefers_done e b s =
    if room
    then (if is_over && prefers_done then (refused closed, s) else accept_message e b s)
    else (refused (if is_over then closed else would_block), s)

-- There is room for 64 messages.
unfoldable pub wire_send : Bool → End → Bytes → Wire → Answer × Wire
wire_send prefers_done e b s =
    send_answer (ltb (waiting (stream_of e s)) 64) s.is_over prefers_done e b s

unfoldable pub wire_take : End → Option Bytes → Wire → Answer × Wire
wire_take e none s = (refused (if s.is_over then closed else would_block), s)
wire_take e (some b) s = (got b, set_stream e (advance (stream_of e s)) s)

unfoldable pub wire_call : Call → Wire → Answer × Wire
wire_call (send prefers_done e b) s = wire_send prefers_done e b s
wire_call (recv e) s =
    let x = stream_of (other_end e) s in wire_take (other_end e) (get_elem? x.sent x.taken) s
wire_call close s = (nothing, record s { is_over = true })

unfoldable pub wire_calls : List Call → Wire → List Answer
wire_calls [] s = []
wire_calls (c ∷ cs) s = (wire_call c s).0 ∷ wire_calls cs (wire_call c s).1

-- The same calls on the pipe.
unfoldable pub answer_unit : Outcome Pipe (Unit {0}) → Answer × Pipe
answer_unit (done u w) = (nothing, w)
answer_unit (failed e w) = (refused e, w)

unfoldable pub answer_bytes : Outcome Pipe Bytes → Answer × Pipe
answer_bytes (done b w) = (got b, w)
answer_bytes (failed e w) = (refused e, w)

unfoldable pub pipe_call : Call → Pipe → Answer × Pipe
pipe_call (send prefers_done e b) w = answer_unit (pipe_send prefers_done e b w)
pipe_call (recv e) w = answer_bytes (pipe_recv e w)
pipe_call close w = answer_unit (pipe_close w)

unfoldable pub pipe_calls : List Call → Pipe → List Answer
pipe_calls [] w = []
pipe_calls (c ∷ cs) w = (pipe_call c w).0 ∷ pipe_calls cs (pipe_call c w).1

-- The pipe that stands for a wire: what is in the log beyond what was received.
unfoldable pub in_flight : Stream → List Bytes
in_flight x = drop x.taken x.sent

unfoldable pub view : Wire → Pipe
view s = record { a2b = in_flight s.from_a; b2a = in_flight s.from_b; is_closed = s.is_over }

-- Nothing is received that was not sent.
abbrev pub IsValid : Wire → Type 0
IsValid s = (e : End) → (stream_of e s).taken ≤ length (stream_of e s).sent

drop-append : (n : ℕ) (xs ys : List Bytes) → n ≤ length xs → drop n (xs ++ ys) ≡ drop n xs ++ ys
drop-append zero xs ys h = refl
drop-append (suc n) [] ys h = absurd (omega arith)
drop-append (suc n) (x ∷ xs) ys h = drop-append n xs ys (omega arith)

drop_at_entry :
    (n : ℕ) (xs : List Bytes) (b : Bytes)
    → get_elem? xs n ≡ some b
    → (drop n xs ≡ b ∷ drop (suc n) xs) × (n < length xs)
drop_at_entry n [] b h = absurd (cc)
drop_at_entry zero (x ∷ xs) b h = (cc, omega arith)
drop_at_entry (suc n) (x ∷ xs) b h = let (e, lt) = drop_at_entry n xs b h in (e, omega arith)

drop_past_end : (n : ℕ) (xs : List Bytes) → get_elem? xs n ≡ none → drop n xs ≡ []
drop_past_end zero [] h = refl
drop_past_end (suc n) [] h = refl
drop_past_end zero (x ∷ xs) h = absurd (cc)
drop_past_end (suc n) (x ∷ xs) h = drop_past_end n xs h

out_of-view : (e : End) (s : Wire) → out_of e (view s) ≡ in_flight (stream_of e s)
unfolding out_of view stream_of
out_of-view end_a s = refl
out_of-view end_b s = refl

in_of-view : (e : End) (s : Wire) → in_of e (view s) ≡ in_flight (stream_of (other_end e) s)
unfolding in_of view stream_of other_end
in_of-view end_a s = refl
in_of-view end_b s = refl

view-set_stream :
    (e : End) (x : Stream) (s : Wire) → view (set_stream e x s) ≡ set_out e (in_flight x) (view s)
unfolding set_out view set_stream
view-set_stream end_a x s = refl
view-set_stream end_b x s = refl

set_in-view :
    (e : End) (x : Stream) (s : Wire)
    → view (set_stream (other_end e) x s) ≡ set_in e (in_flight x) (view s)
unfolding set_in view set_stream other_end
set_in-view end_a x s = refl
set_in-view end_b x s = refl

IsValid-set_stream :
    (e : End) (x : Stream) (s : Wire)
    → IsValid s
    → x.taken ≤ length x.sent
    → IsValid (set_stream e x s)
unfolding set_stream stream_of
IsValid-set_stream end_a x s v h end_a = h
IsValid-set_stream end_a x s v h end_b = v end_b
IsValid-set_stream end_b x s v h end_a = v end_a
IsValid-set_stream end_b x s v h end_b = h

-- The simulation: one call.
abbrev Matches : Call → Wire → Type 0
Matches c s =
    (pipe_call c (view s) ≡ ((wire_call c s).0, view (wire_call c s).1)) × IsValid (wire_call c s).1

length-in_flight : (x : Stream) → length (in_flight x) ≡ waiting x
unfolding in_flight waiting
length-in_flight x = length-drop x.taken x.sent

put-view :
    (e : End) (b : Bytes) (s : Wire)
    → IsValid s
    → answer_unit (put_unless none e b (view s))
      ≡ ((accept_message e b s).0, view (accept_message e b s).1)
unfolding put_unless accept_message answer_unit set_out in_flight view stream_of log
put-view e b s v =
    rw
      (
        out_of-view e s,
        view-set_stream e (log b (stream_of e s)) s,
        drop-append (stream_of e s).taken (stream_of e s).sent (b ∷ []) (v e),
      )
      refl

accept_message-IsValid :
    (e : End) (b : Bytes) (s : Wire) → IsValid s → IsValid (accept_message e b s).1
unfolding accept_message log
accept_message-IsValid e b s v =
    IsValid-set_stream e _ s v
      (let h = v e in ground (arith, length-append (stream_of e s).sent (b ∷ [])))

refusal-send_answer :
    (room over d : Bool) (e : End) (b : Bytes) (s : Wire)
    → IsValid s
    → (answer_unit (put_unless (refusal room over d) e b (view s))
        ≡ ((send_answer room over d e b s).0, view (send_answer room over d e b s).1))
      × IsValid (send_answer room over d e b s).1
unfolding refusal put_unless answer_unit send_answer
refusal-send_answer true false d e b s v = (put-view e b s v, accept_message-IsValid e b s v)
refusal-send_answer true true false e b s v = (put-view e b s v, accept_message-IsValid e b s v)
refusal-send_answer true true true e b s v = (refl, v)
refusal-send_answer false true d e b s v = (refl, v)
refusal-send_answer false false d e b s v = (refl, v)

send-Matches : (d : Bool) (e : End) (b : Bytes) (s : Wire) → IsValid s → Matches (send d e b) s
unfolding pipe_call wire_call pipe_send wire_send view
send-Matches d e b s v =
    rw (out_of-view e s, length-in_flight (stream_of e s))
      (refusal-send_answer (ltb (waiting (stream_of e s)) 64) s.is_over d e b s v)

take-Matches :
    (o : Option Bytes) (e : End) (s : Wire)
    → IsValid s
    → get_elem? (stream_of (other_end e) s).sent (stream_of (other_end e) s).taken ≡ o
    → (answer_bytes (take_first e (in_flight (stream_of (other_end e) s)) (view s))
        ≡ ((wire_take (other_end e) o s).0, view (wire_take (other_end e) o s).1))
      × IsValid (wire_take (other_end e) o s).1
unfolding wire_take in_flight answer_bytes take_first view advance stream_of
take-Matches none e s v h =
    let x = stream_of (other_end e) s in (rw (drop_past_end x.taken x.sent h) refl, v)
take-Matches (some b) e s v h =
    let x = stream_of (other_end e) s in
    let (f, lt) = drop_at_entry x.taken x.sent b h in
    (
      rw (f, set_in-view e (advance x) s) refl,
      IsValid-set_stream (other_end e) (advance x) s v (omega arith),
    )

recv-Matches : (e : End) (s : Wire) → IsValid s → Matches (recv e) s
unfolding pipe_call wire_call pipe_recv
recv-Matches e s v = rw (in_of-view e s) (take-Matches _ e s v refl)

close-IsValid : (s : Wire) → IsValid s → IsValid (record s { is_over = true })
unfolding stream_of
close-IsValid s v end_a = v end_a
close-IsValid s v end_b = v end_b

new_wire-IsValid : IsValid new_wire
unfolding stream_of new_wire
new_wire-IsValid end_a = omega arith
new_wire-IsValid end_b = omega arith

call-Matches : (c : Call) (s : Wire) → IsValid s → Matches c s
unfolding pipe_call wire_call pipe_close view answer_unit
call-Matches (send d e b) s v = send-Matches d e b s v
call-Matches (recv e) s v = recv-Matches e s v
call-Matches close s v = (refl, close-IsValid s v)

calls-view : (cs : List Call) (s : Wire) → IsValid s → pipe_calls cs (view s) ≡ wire_calls cs s
unfolding pipe_calls wire_calls
calls-view [] s v = refl
calls-view (c ∷ cs) s v =
    let (e, v') = call-Matches c s v in rw (e, calls-view cs (wire_call c s).1 v')

-- Any calls of Send, Recv and Close at the two ends of a new pipe, in any order and whichever case
-- each `select` takes, return what the abstract connection answers: every receive gets the first
-- message of the other end's log that was not received yet, if there is one, and else ErrClosed or
-- a wait; a send is accepted while fewer than 64 messages wait, if the pipe is not closed or the
-- `select` does not take the closed case, and else refused with ErrClosed, or made to wait where
-- the pipe is not closed.
pub pipe_calls-wire_calls : (cs : List Call) → pipe_calls cs new_pipe ≡ wire_calls cs new_wire
unfolding new_pipe new_wire view in_flight
pipe_calls-wire_calls cs = calls-view cs new_wire new_wire-IsValid
