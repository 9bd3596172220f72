-- ===== src/Examples/Documents.antt =====
-- A document of the store as bytes, and a store that is written and opened again.
use stunner.Base.{ℕ, ◌≡◌, refl, Option, none, List, replicate, ◌==◌, Bool, if◌then◌else◌}
use stunner.Base.Bytes.{Bytes, codes}
use stunner.Base.Dict.{Dict}
use stunner.Base.Result.{ok}
use stunner.Base.Method.{done}
use stunner.Contact.{Contact}
use stunner.Messaging.{
  Envelope, Conversation, DeliveryState, queued, sent, delivered, was_read, send_failed,
}
use stunner.Settings.{IceServer, Settings, default_settings}
use stunner.Storage.{
  Document, StoredMessage, Store, Outside, save_settings, apply, write_change, open_file_store,
}
use stunner.Storage.Reopen.{open_file_store-write_change}
use stunner.Examples.Formats.{Format, nat, pair, via, list, bytes, bool, option, envelope, json}
use stunner.Examples.Sessions.{key_of}
use stunner.Examples.Stores.{store}
use stunner.Examples.Toy.{toy}

abbrev server_of : Bytes × (Bytes × List Bytes) → IceServer
server_of (u, (c, l)) = record { urls = l; username = u; credential = c }

abbrev server : Format IceServer
server =
    via (pair bytes (pair bytes (list bytes))) server_of (λ s. (s.username, (s.credential, s.urls)))
      (λ s. refl)

abbrev settings_of : List IceServer × (Bool × (Bytes × (Bytes × ℕ))) → Settings
settings_of (i, (r, (a, (l, d)))) = record {
  ice_servers = i;
  relay_enabled = r;
  relay_address = a;
  app_lock = l;
  disappearing_default_seconds = d;
}

abbrev pub settings : Format Settings
settings =
    via (pair (list server) (pair bool (pair bytes (pair bytes nat)))) settings_of
      (λ s. (
        s.ice_servers,
        (s.relay_enabled, (s.relay_address, (s.app_lock, s.disappearing_default_seconds))),
      ))
      (λ s. refl)

abbrev contact_of : Bytes × (Bytes × (Bytes × (ℕ × Bool))) → Contact
contact_of (h, (k, (f, (t, v)))) = record {
  handle = h;
  identity_key = k;
  fingerprint = f;
  added_at = t;
  verified = v;
}

abbrev contact : Format Contact
contact =
    via (pair bytes (pair bytes (pair bytes (pair nat bool)))) contact_of
      (λ c. (c.handle, (c.identity_key, (c.fingerprint, (c.added_at, c.verified))))) (λ c. refl)

abbrev conversation_of : Bytes × (Bytes × Bytes) → Conversation
conversation_of (i, (p, n)) = record { id = i; peer_id = p; display_name = n }

abbrev conversation : Format Conversation
conversation =
    via (pair bytes (pair bytes bytes)) conversation_of (λ c. (c.id, (c.peer_id, c.display_name)))
      (λ c. refl)

abbrev state_of_nat : ℕ → DeliveryState
state_of_nat n =
    if n == 0
    then queued
    else if n == 1
    then sent
    else if n == 2
    then delivered
    else if n == 3
    then was_read
    else send_failed

abbrev nat_of_state : DeliveryState → ℕ
nat_of_state queued = 0
nat_of_state sent = 1
nat_of_state delivered = 2
nat_of_state was_read = 3
nat_of_state send_failed = 4

pub same_state : (s : DeliveryState) → state_of_nat (nat_of_state s) ≡ s
same_state queued = refl
same_state sent = refl
same_state delivered = refl
same_state was_read = refl
same_state send_failed = refl

abbrev message_of : Envelope × (DeliveryState × Bytes) → StoredMessage
message_of (e, (s, c)) = record { envelope = e; state = s; conv_id = c }

abbrev message : Format StoredMessage
message =
    via (pair envelope (pair (via nat state_of_nat nat_of_state same_state) bytes)) message_of
      (λ m. (m.envelope, (m.state, m.conv_id))) (λ m. refl)

abbrev dict : {A : Type 0} → Format A → Format (Dict Bytes A)
dict x = list (pair bytes x)

abbrev document_of :
    Option Settings
      × (Dict Bytes Contact
          × (Dict Bytes Conversation
              × (Dict Bytes (List StoredMessage) × (List StoredMessage × Dict Bytes Bytes))))
    → Document
document_of (s, (c, (v, (m, (o, b))))) = record {
  settings = s;
  contacts = c;
  conversations = v;
  messages = m;
  outbox = o;
  blobs = b;
}

abbrev pub document : Format Document
document =
    via
      (pair (option settings) (
        pair (dict contact) (
          pair (dict conversation)
            (pair (dict (list message)) (pair (list message) (dict bytes))))))
      document_of
      (λ d. (d.settings, (d.contacts, (d.conversations, (d.messages, (d.outbox, d.blobs))))))
      (λ d. refl)

abbrev pub outside : Outside
outside = record { nonce = ok (replicate 12 0); write = ok tt; torn = none }

abbrev pub keyed : Store
keyed = record store { key = key_of 9 }

open_file_store-write_change_example :
    (s : Store) × (write_change toy (json document) outside (save_settings default_settings) keyed
      ≡ done tt s)
    × (s.document ≡ apply (save_settings default_settings) keyed.document)
    × (s.key ≡ keyed.key)
    × (open_file_store toy (json document) (ok tt) none (codes "db") keyed.key s.disk ≡ ok s)
open_file_store-write_change_example =
    open_file_store-write_change toy (json document) outside (save_settings default_settings) keyed
      (codes "db") (replicate 12 0) refl refl refl refl refl refl
