-- ===== src/Transport/Open.antt =====
-- The calls of an open pipe with room, by what is in flight from one end.
use stunner.Base.{◌<◌, ◌≡◌, refl, true, false, List, [], ◌∷◌, ◌++◌, Bool, ltb, length, arith}
use stunner.Base.Bytes.{Bytes}
use stunner.Base.Method.{done}
use stunner.Transport.{
  Pipe, End, end_a, end_b, pipe_send, pipe_recv, put_unless, refusal, take_first, in_of, out_of,
  set_in, set_out,
}
use stunner.Transport.Fifo.{other_end}

pub out_of-set_out : (e : End) (q : List Bytes) (w : Pipe) → out_of e (set_out e q w) ≡ q
unfolding out_of set_out
out_of-set_out end_a q w = refl
out_of-set_out end_b q w = refl

pub set_out-set_out :
    (e : End) (q q' : List Bytes) (w : Pipe) → set_out e q (set_out e q' w) ≡ set_out e q w
unfolding set_out
set_out-set_out end_a q q' w = refl
set_out-set_out end_b q q' w = refl

pub set_out-out_of : (e : End) (w : Pipe) → set_out e (out_of e w) w ≡ w
unfolding set_out out_of
set_out-out_of end_a w = refl
set_out-out_of end_b w = refl

in_of-set_out : (e : End) (q : List Bytes) (w : Pipe) → in_of (other_end e) (set_out e q w) ≡ q
unfolding in_of set_out other_end
in_of-set_out end_a q w = refl
in_of-set_out end_b q w = refl

set_in-set_out :
    (e : End) (q q' : List Bytes) (w : Pipe)
    → set_in (other_end e) q (set_out e q' w) ≡ set_out e q w
unfolding set_in set_out other_end
set_in-set_out end_a q q' w = refl
set_in-set_out end_b q q' w = refl

pub pipe_send_room :
    (d : Bool) (e : End) (b : Bytes) (q : List Bytes) (w : Pipe)
    → w.is_closed ≡ false
    → length q < 64
    → pipe_send d e b (set_out e q w) ≡ done tt (set_out e (q ++ b ∷ []) w)
unfolding pipe_send put_unless refusal set_out out_of
pipe_send_room d end_a b q w is_open room =
    let has_room : ltb (length q) 64 ≡ true = ground arith in rw (is_open, has_room) refl
pipe_send_room d end_b b q w is_open room =
    let has_room : ltb (length q) 64 ≡ true = ground arith in rw (is_open, has_room) refl

pub pipe_recv_next :
    (e : End) (b : Bytes) (q : List Bytes) (w : Pipe)
    → pipe_recv (other_end e) (set_out e (b ∷ q) w) ≡ done b (set_out e q w)
unfolding pipe_recv take_first
pipe_recv_next e b q w = rw (in_of-set_out e (b ∷ q) w, set_in-set_out e q (b ∷ q) w) refl
