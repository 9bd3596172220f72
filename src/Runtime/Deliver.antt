-- ===== src/Runtime/Deliver.antt =====
-- `deliver` of core/pkg/runtime/runtime.go: one request of the outbox.
use stunner.Base.{ℕ, zero, suc, ◌==◌, Bool, Option, none, some, [], length, if◌then◌else◌}
use stunner.Base.Bytes.{Bytes, codes}
use stunner.Runtime.{
  Event, Kind, sent, send_failed, event, Link, Engine, push, get_link, drop_link, adopt,
}

abbrev pub connect_attempts : ℕ
connect_attempts = 12

-- outReq
pub record Request : Type 0 where
  pub peer_uri : Bytes
  pub text : Bytes
  pub msg_id : Bytes
  pub file_path : Bytes

-- The answers of one attempt to connect: whether the engine is closed in front of it, what Connect
-- returns (the text of its error, if it fails), and whether the engine closes while it waits.
pub data Connected : Type 0 where
  link_up : Link → Connected
  link_fault : (text : Bytes) → Connected

pub record Attempt : Type 0 where
  pub closed_before : Bool
  pub result : Connected
  pub closed_after : Bool

-- What SendEnvelope or SendFile is called with: the text of an envelope and its message id, or a file.
pub data Outgoing : Type 0 where
  text_out : (conv_id text msg_id : Bytes) → Outgoing
  file_out : (conv_id name mime contents : Bytes) → Outgoing

-- What comes of os.ReadFile, and of NewText with the id that it draws; a fault is the text of an error.
pub data Fetched : Type 0 where
  fetched : Bytes → Fetched
  not_fetched : (text : Bytes) → Fetched

-- The answers of the calls of one `deliver`: the fingerprint in the contact URI, the attempts, what
-- ReadFile and NewText return, filepath.Base, the type that mime.TypeByExtension has for a name, and
-- the fault of SendFile or SendEnvelope.
pub record Turn : Type 0 where
  pub parsed : Option Bytes
  pub attempts : ℕ → Attempt
  pub read_file : Bytes → Fetched
  pub new_text_id : Bytes → Bytes → Fetched
  pub base_name : Bytes → Bytes
  pub type_of_name : Bytes → Bytes
  pub send_fault : Link → Outgoing → Option Bytes

pub data Dialed : Type 0 where
  stopped : Dialed
  gave_up : (text : Bytes) → Dialed
  dialed : Link → Dialed

-- What an attempt leads to; `rest` is the loop behind it, from the text of its error.
unfoldable pub attempted : Connected → Bool → (Bytes → Dialed) → Dialed
attempted (link_up l) closed_after rest = dialed l
attempted (link_fault e) closed_after rest = if closed_after then stopped else rest e

-- The loop over the attempts: those that are left, the next one, and the error of the last.
unfoldable pub dial : ℕ → ℕ → Bytes → (ℕ → Attempt) → Dialed
dial zero i last f = gave_up last
dial (suc left) i last f =
    let rest : Bytes → Dialed = λ e. dial left (suc i) e f in
    if (f i).closed_before then stopped else attempted (f i).result (f i).closed_after rest

unfoldable pub answer : Kind → Bytes → Request → Bytes → Event
answer k fp req detail = record (event k) { peer_fp = fp; msg_id = req.msg_id; detail = detail }

-- The answer to SendFile or SendEnvelope: a fault drops the link.
unfoldable pub after_send : ℕ → Request → Bytes → Link → Option Bytes → Engine → Engine
after_send now req fp l none r = push now (answer sent fp req []) r
after_send now req fp l (some e) r = push now (answer send_failed fp req e) (drop_link fp l r)

-- What `deliver` is going to send, or the text of the error that comes first.
pub data Prepared : Type 0 where
  prepared : Outgoing → Prepared
  unprepared : (text : Bytes) → Prepared

-- `mimeOf`, from the type of the name's extension.
unfoldable pub mime_of : (Bytes → Bytes) → Bytes → Bytes
mime_of type_of_name name =
    if length (type_of_name name) == 0 then codes "application/octet-stream" else type_of_name name

unfoldable pub prepare_file : Turn → Bytes → Bytes → Fetched → Prepared
prepare_file t fp path (not_fetched e) = unprepared e
prepare_file t fp path (fetched contents) =
    let name = t.base_name path in
    prepared (file_out fp name (mime_of t.type_of_name name) contents)

-- The caller's message id, if there is one, takes the place of the one that NewText draws.
unfoldable pub prepare_text : Request → Bytes → Fetched → Prepared
prepare_text req fp (not_fetched e) = unprepared e
prepare_text req fp (fetched drawn) =
    prepared (text_out fp req.text (if length req.msg_id == 0 then drawn else req.msg_id))

unfoldable pub prepare : Request → Turn → Bytes → Prepared
prepare req t fp =
    if length req.file_path == 0
    then prepare_text req fp (t.new_text_id fp req.text)
    else prepare_file t fp req.file_path (t.read_file req.file_path)

-- The end of `deliver`, with a link and what is to be sent.
unfoldable pub after_check :
    ℕ → Request → (Link → Outgoing → Option Bytes) → Bytes → Link → Prepared → Engine → Engine
after_check now req send_fault fp l (unprepared e) r = push now (answer send_failed fp req e) r
after_check now req send_fault fp l (prepared x) r = after_send now req fp l (send_fault l x) r

unfoldable pub transmit : ℕ → Request → Turn → Bytes → Link → Engine → Engine
transmit now req t fp l r = after_check now req t.send_fault fp l (prepare req t fp) r

unfoldable pub after_dial : ℕ → Request → Turn → Bytes → Dialed → Engine → Engine
after_dial now req t fp stopped r = r
after_dial now req t fp (gave_up e) r = push now (answer send_failed fp req e) r
after_dial now req t fp (dialed l) r = transmit now req t fp l (adopt now l r)

-- `deliver` behind getLink, and behind ParseURI.
unfoldable pub with_link : ℕ → Request → Turn → Bytes → Option Link → Engine → Engine
with_link now req t fp (some l) r = transmit now req t fp l r
with_link now req t fp none r = after_dial now req t fp (dial connect_attempts 0 [] t.attempts) r

unfoldable pub with_peer : ℕ → Request → Turn → Option Bytes → Engine → Engine
with_peer now req t none r = push now (answer send_failed [] req (codes "invalid contact URI")) r
with_peer now req t (some fp) r = with_link now req t fp (get_link fp r) r

unfoldable pub deliver : ℕ → Request → Turn → Engine → Engine
deliver now req t r = with_peer now req t t.parsed r
