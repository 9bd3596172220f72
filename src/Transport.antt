-- ===== src/Transport.antt =====
-- core/pkg/transport: the interface `Conn`, and core/pkg/transport/inproc.go, its in-process form.
pub mod Fifo
pub mod Pion
pub mod Open
use stunner.Base.{
  ℕ, Bool, true, false, Option, none, some, List, [], ◌∷◌, ◌++◌, ltb, length, if◌then◌else◌,
}
use stunner.Base.Bytes.{Bytes}
use stunner.Base.Result.{Error, closed, would_block}
use stunner.Base.Method.{Outcome, Method, done, failed}

-- `Conn`, with the state `W` of what connects the two ends.
pub record Conn (W : Type 0) : Type 0 where
  pub send : Bytes → Method W (Unit {0})
  pub recv : Method W Bytes
  pub close : Method W (Unit {0})

-- The two channels of `Pipe`, and whether `done` is closed.
pub record Pipe : Type 0 where
  pub a2b : List Bytes
  pub b2a : List Bytes
  pub is_closed : Bool

pub data End : Type 0 where
  end_a end_b : End

-- The capacity of the channels.
abbrev pub capacity : ℕ
capacity = 64

unfoldable pub new_pipe : Pipe
new_pipe = record { a2b = []; b2a = []; is_closed = false }

-- The channels `out` and `in` of an end.
unfoldable pub out_of : End → Pipe → List Bytes
out_of end_a w = w.a2b
out_of end_b w = w.b2a

unfoldable pub in_of : End → Pipe → List Bytes
in_of end_a w = w.b2a
in_of end_b w = w.a2b

unfoldable pub set_out : End → List Bytes → Pipe → Pipe
set_out end_a queue w = record w { a2b = queue }
set_out end_b queue w = record w { b2a = queue }

unfoldable pub set_in : End → List Bytes → Pipe → Pipe
set_in end_a queue w = record w { b2a = queue }
set_in end_b queue w = record w { a2b = queue }

-- What the `select` of `Send` refuses with, if it does: by whether there is room in the channel,
-- whether the pipe is closed, and which case the `select` takes where both are ready. A call that
-- would wait fails with `would_block`.
unfoldable pub refusal : (room is_closed prefers_done : Bool) → Option Error
refusal true false prefers_done = none
refusal true true false = none
refusal true true true = some closed
refusal false true prefers_done = some closed
refusal false false prefers_done = some would_block

unfoldable pub put_unless : Option Error → End → Bytes → Method Pipe (Unit {0})
put_unless (some x) e b w = failed x w
put_unless none e b w = done tt (set_out e (out_of e w ++ b ∷ []) w)

-- `Send`
unfoldable pub pipe_send : Bool → End → Bytes → Method Pipe (Unit {0})
pipe_send prefers_done e b w =
    put_unless (refusal (ltb (length (out_of e w)) capacity) w.is_closed prefers_done) e b w

-- A receive on the channel `in` of an end.
unfoldable pub take_first : End → List Bytes → Method Pipe Bytes
take_first e [] w = failed (if w.is_closed then closed else would_block) w
take_first e (b ∷ queue) w = done b (set_in e queue w)

-- `Recv`: a message that is buffered comes out also after the close, by either case.
unfoldable pub pipe_recv : End → Method Pipe Bytes
pipe_recv e w = take_first e (in_of e w) w

unfoldable pub pipe_close : Method Pipe (Unit {0})
pipe_close w = done tt (record w { is_closed = true })

unfoldable pub pipe_conn : Bool → End → Conn Pipe
pipe_conn prefers_done e = record {
  send = pipe_send prefers_done e;
  recv = pipe_recv e;
  close = pipe_close;
}
