-- ===== src/Runtime.antt =====
-- core/pkg/runtime/runtime.go: the engine behind the app. Its goroutines share the state under one
-- mutex; each handler here is what one goroutine does in one turn, with the answers of the calls
-- that leave the engine (links, discovery, the file system, the clock) as arguments.
pub mod Deliver
pub mod Turns
pub mod Queue
pub mod Linked
pub mod State
pub mod Restart
pub mod Links
pub mod Reach
pub mod Answers
pub mod Replaced
use stunner.Base.{
  ℕ, zero, suc, ◌+◌, ◌==◌, Bool, true, false, not, Option, none, some, List, [], ◌∷◌, ◌++◌, map,
  ltb, length, if◌then◌else◌,
}
use stunner.Base.Bytes.{Bytes, codes}
use stunner.Base.Eq.{bytes_eq, bytes_eq_instance}
use stunner.Base.Dict.{Dict, lookup, insert, remove}
use stunner.Base.Result.{Error, Result, ok, err}

pub data Kind : Type 0 where
  message file presence sent send_failed receipt failure typing diagnostic : Kind

pub record Event : Type 0 where
  pub kind : Kind
  pub peer_fp : Bytes
  pub peer_uri : Bytes
  pub text : Bytes
  pub name : Bytes
  pub path : Bytes
  pub msg_id : Bytes
  pub online : Bool
  pub detail : Bytes
  pub time : ℕ

-- An event with only a kind: the fields that a literal of the source leaves out are empty.
unfoldable pub event : Kind → Event
event k = record {
  kind = k;
  peer_fp = [];
  peer_uri = [];
  text = [];
  name = [];
  path = [];
  msg_id = [];
  online = false;
  detail = [];
  time = 0;
}

-- A *node.Link: which one it is, and what its handshake told of the peer.
pub record Link : Type 0 where
  pub id : ℕ
  pub peer_fp : Bytes
  pub peer_uri : Bytes

pub data Ack : Type 0 where
  delivered was_read : Ack

-- A receipt that went out: SendReceipt on a link.
pub record Receipt : Type 0 where
  pub link : Link
  pub msg_id : Bytes
  pub state : Ack

-- The state of `Runtime`; `shut` and `receipts` record the calls of Close and SendReceipt.
pub record Engine : Type 0 where
  pub links : Dict Bytes Link
  pub last_in : Dict Bytes Bytes
  pub events : List Event
  pub closed : Bool
  pub shut : List ℕ
  pub receipts : List Receipt
  pub readers : List Link

-- `push`; `now` is the time that it reads.
unfoldable pub push : ℕ → Event → Engine → Engine
push now e r = record r { events = r.events ++ record e { time = now } ∷ [] }

-- `Poll`
unfoldable pub poll : Engine → List Event × Engine
poll r = (r.events, record r { events = [] })

-- `getLink`
unfoldable pub get_link : Bytes → Engine → Option Link
get_link fp r = lookup fp r.links

unfoldable pub set_last_inbound : Bytes → Bytes → Engine → Engine
set_last_inbound fp msg_id r = record r { last_in = insert fp msg_id r.last_in }

-- (*node.Link).Close
unfoldable pub close_link : Link → Engine → Engine
close_link l r = record r { shut = l.id ∷ r.shut }

unfoldable pub drop_link : Bytes → Link → Engine → Engine
drop_link fp l r = elim (lookup fp r.links) [
  | none ↦ close_link l r
  | some held ↦
      if held.id == l.id
      then close_link l (record r { links = remove fp r.links })
      else close_link l r
]

-- The link that `adopt` replaces is closed.
unfoldable pub close_old : Option Link → Link → Engine → Engine
close_old none l r = r
close_old (some old) l r = if old.id == l.id then r else close_link old r

unfoldable pub adopt : ℕ → Link → Engine → Engine
adopt now l r =
    let s = close_old (lookup l.peer_fp r.links) l r in
    let t =
      push now
        (record (event presence) { peer_fp = l.peer_fp; peer_uri = l.peer_uri; online = true })
        (record s { links = insert l.peer_fp l s.links }) in
    record t { readers = t.readers ++ l ∷ [] }

-- What saveFile returns: a path, or the text of an error.
pub data Saved : Type 0 where
  saved_at save_fault : (text : Bytes) → Saved

-- What the calls of one round of `recvLoop` return: a failed Receive, or an envelope of each type
-- with what its handling reads. A fault is the text of an error.
pub data Incoming : Type 0 where
  broken : Incoming
  text_message : (msg_id text : Bytes) → Incoming
  file_message :
      (msg_id name mime : Bytes) (offer_fault body_fault : Option Bytes) (saved : Saved) → Incoming
  typing_message : Incoming
  receipt_message : (parsed : Option (Bytes × Bytes)) → Incoming
  other_message : Incoming

unfoldable pub send_receipt : Link → Bytes → Ack → Engine → Engine
send_receipt l msg_id a r = record r {
  receipts = r.receipts ++ record { link = l; msg_id = msg_id; state = a } ∷ [];
}

unfoldable pub from_link : Kind → Link → Event
from_link k l = record (event k) { peer_fp = l.peer_fp; peer_uri = l.peer_uri }

-- The case of a file offer, from the results of ParseFileOffer, ReceiveFileBody and saveFile.
unfoldable pub recv_file :
    ℕ → Link → Bytes → Bytes → Bytes → Option Bytes → Option Bytes → Saved → Engine → Engine
recv_file now l msg_id name mime (some e) body saved r =
    push now (record (event failure) { detail = codes "file offer: " ++ e }) r
recv_file now l msg_id name mime none (some e) saved r =
    push now (record (event failure) { detail = codes "file recv: " ++ e }) r
recv_file now l msg_id name mime none none (save_fault e) r =
    push now (record (event failure) { detail = codes "file save: " ++ e }) r
recv_file now l msg_id name mime none none (saved_at path) r = send_receipt l msg_id delivered (
    push now
      (record (from_link file l) { msg_id = msg_id; name = name; path = path; detail = mime })
      (set_last_inbound l.peer_fp msg_id r))

-- One round of `recvLoop`; `true` if the loop goes on.
unfoldable pub recv_round : ℕ → Link → Incoming → Engine → Bool × Engine
recv_round now l broken r = (false, push now (from_link presence l) (drop_link l.peer_fp l r))
recv_round now l (text_message msg_id text) r = (
  true,
  send_receipt l msg_id delivered (
      push now (record (from_link message l) { msg_id = msg_id; text = text })
        (set_last_inbound l.peer_fp msg_id r)),
)
recv_round now l (file_message msg_id name mime offer body saved) r =
    (true, recv_file now l msg_id name mime offer body saved r)
recv_round now l typing_message r = (true, push now (from_link typing l) r)
recv_round now l (receipt_message none) r = (true, r)
recv_round now l (receipt_message (some (ref, state))) r = (
  true,
  push now (record (event receipt) { peer_fp = l.peer_fp; msg_id = ref; detail = state }) r,
)
recv_round now l other_message r = (true, r)

-- `MarkRead`; `fp` is the fingerprint in the contact URI, `none` if that does not parse.
unfoldable pub mark_read : Option Bytes → Engine → Engine
mark_read none r = r
mark_read (some fp) r = elim (get_link fp r) [
  | none ↦ r
  | some l ↦ elim (lookup fp r.last_in) [
    | none ↦ r
    | some msg_id ↦ if length msg_id == 0 then r else send_receipt l msg_id was_read r
  ]
]

-- `Stop`
unfoldable pub stop : Engine → Engine
stop r =
    if r.closed
    then r
    else record r { closed = true; links = []; shut = map (λ e. e.1.id) r.links ++ r.shut }
