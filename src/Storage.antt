-- ===== src/Storage.antt =====
-- core/pkg/storage/filestore.go: the store, one sealed JSON document. The disk is a field of the
-- state; the mutex of the source makes each method one step.
pub mod Reopen
pub mod Pages
use stunner.Base.{
  ℕ, zero, suc, ◌-◌, Bool, true, false, not, Option, none, some, List, [], ◌∷◌, ◌++◌, map, ltb,
  ◌==◌, length, take, drop, if◌then◌else◌,
}
use stunner.Base.Bytes.{Bytes}
use stunner.Base.Eq.{bytes_eq, bytes_eq_instance}
use stunner.Base.Dict.{Dict, lookup, insert, remove}
use stunner.Base.Result.{
  Error, Result, ok, err, ◌>>=◌, ◌>>◌, check, or_err, bad_store_key, empty_path, bad_json,
  blob_not_found,
}
use stunner.Base.Method.{Method, done, failed}
use stunner.Crypto.Primitives.{Primitives}
use stunner.Contact.{Contact}
use stunner.Messaging.{
  Json, Envelope, Conversation, DeliveryState, queued, sent, delivered, was_read, send_failed,
}
use stunner.Settings.{Settings, default_settings}
use stunner.Vault.{key_size, seal_box, open_box}

pub record StoredMessage : Type 0 where
  pub envelope : Envelope
  pub state : DeliveryState
  pub conv_id : Bytes

-- dbData
pub record Document : Type 0 where
  pub settings : Option Settings
  pub contacts : Dict Bytes Contact
  pub conversations : Dict Bytes Conversation
  pub messages : Dict Bytes (List StoredMessage)
  pub outbox : List StoredMessage
  pub blobs : Dict Bytes Bytes

-- fileStore, and the file at its path.
pub record Store : Type 0 where
  pub key : Bytes
  pub document : Document
  pub disk : Option Bytes

-- The outside of one call: the nonce that is drawn, os.WriteFile, and what a failed write leaves.
pub record Outside : Type 0 where
  pub nonce : Result Bytes
  pub write : Result (Unit {0})
  pub torn : Option Bytes

unfoldable pub empty_document : Document
empty_document = record {
  settings = none;
  contacts = [];
  conversations = [];
  messages = [];
  outbox = [];
  blobs = [];
}

-- m[k], where a missing key reads as an empty slice.
unfoldable pub messages_of : Bytes → Document → List StoredMessage
messages_of conv_id d = elim (lookup conv_id d.messages) [ none ↦ [] | some msgs ↦ msgs ]

-- The messages that `DeleteMessage` keeps.
unfoldable pub without : Bytes → List StoredMessage → List StoredMessage
without msg_id [] = []
without msg_id (m ∷ ms) =
    let rest = without msg_id ms in if bytes_eq m.envelope.msg_id msg_id then rest else m ∷ rest

-- The methods that write, by what they change in the document.
pub data Change : Type 0 where
  save_settings : Settings → Change
  upsert_conversation : Conversation → Change
  append_message : (conv_id : Bytes) (env : Envelope) (state : DeliveryState) → Change
  enqueue_outbox : (conv_id : Bytes) (env : Envelope) → Change
  save_blob : (namespace key value : Bytes) → Change
  save_contact : Contact → Change
  delete_contact : (handle : Bytes) → Change
  delete_conversation : (conv_id : Bytes) → Change
  delete_message : (conv_id msg_id : Bytes) → Change
  close : Change

unfoldable pub apply : Change → Document → Document
apply (save_settings s) d = record d { settings = some s }
apply (upsert_conversation c) d = record d { conversations = insert c.id c d.conversations }
apply (append_message conv_id env state) d =
    let m : StoredMessage = record { envelope = env; state = state; conv_id = conv_id } in
    record d { messages = insert conv_id (messages_of conv_id d ++ m ∷ []) d.messages }
apply (enqueue_outbox conv_id env) d =
    let m : StoredMessage = record { envelope = env; state = queued; conv_id = conv_id } in
    record d { outbox = d.outbox ++ m ∷ [] }
apply (save_blob namespace key value) d = record d {
  blobs = insert (namespace ++ b'/' ∷ key) value d.blobs;
}
apply (save_contact c) d = record d { contacts = insert c.handle c d.contacts }
apply (delete_contact handle) d = record d { contacts = remove handle d.contacts }
apply (delete_conversation conv_id) d = record d {
  conversations = remove conv_id d.conversations;
  messages = remove conv_id d.messages;
}
apply (delete_message conv_id msg_id) d = record d {
  messages = insert conv_id (without msg_id (messages_of conv_id d)) d.messages;
}
apply close d = d

module _ (p : Primitives) (c : Json Document) where
  -- The document as it stands on disk.
  unfoldable pub seal_document : Result Bytes → Bytes → Document → Result Bytes
  seal_document nonce key d = do blob ← c.marshal d; seal_box p nonce key blob

  unfoldable pub flush : Outside → Method Store (Unit {0})
  flush o s = elim (seal_document o.nonce s.key s.document) [
    | err e ↦ failed e s
    | ok sealed ↦ elim o.write [
      | ok u ↦ done u (record s { disk = some sealed })
      | err e ↦ failed e (record s { disk = o.torn })
    ]
  ]

  -- A method that writes: a failed flush leaves the change in memory.
  unfoldable pub write_change : Outside → Change → Method Store (Unit {0})
  write_change o k s = flush o (record s { document = apply k s.document })

  -- What openFileStore makes of the file; `mkdir` is what os.MkdirAll returns, `fault` what
  -- os.ReadFile fails with on a file that exists.
  unfoldable pub read_document : Option Error → Bytes → Option Bytes → Result Document
  read_document (some e) key disk = err e
  read_document none key none = ok empty_document
  read_document none key (some sealed) = do
    blob ← open_box p key sealed
    or_err (c.unmarshal blob) bad_json

  unfoldable pub open_file_store :
      Result (Unit {0}) → Option Error → Bytes → Bytes → Option Bytes → Result Store
  open_file_store mkdir fault path key disk = do
    check (length key == key_size) bad_store_key
    check (not (length path == 0)) empty_path
    mkdir
    d ← read_document fault key disk
    ok (record { key = key; document = d; disk = disk })

unfoldable pub load_settings : Store → Settings
load_settings s = elim s.document.settings [ none ↦ default_settings | some x ↦ x ]

unfoldable pub load_blob : Bytes → Bytes → Store → Result Bytes
load_blob namespace key s =
    or_err (lookup (namespace ++ b'/' ∷ key) s.document.blobs) blob_not_found

unfoldable pub pending_outbox : Store → List Envelope
pending_outbox s = map (λ m. m.envelope) s.document.outbox

-- The slice of `Messages`; `limit` and `offset` are not negative.
unfoldable pub page : ℕ → ℕ → List StoredMessage → List StoredMessage
page limit offset stored =
    let tail = drop (if ltb (length stored) offset then length stored else offset) stored in
    if ltb 0 limit then (if ltb limit (length tail) then take limit tail else tail) else tail

unfoldable pub messages : Bytes → ℕ → ℕ → Store → List Envelope
messages conv_id limit offset s =
    map (λ m. m.envelope) (page limit offset (messages_of conv_id s.document))

-- `Conversations` and `Contacts`, in the order in which the range over the map visits them.
unfoldable pub conversations : Store → List Conversation
conversations s = map (λ e. e.1) s.document.conversations

unfoldable pub contacts : Store → List Contact
contacts s = map (λ e. e.1) s.document.contacts
