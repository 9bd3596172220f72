-- ===== src/Examples/Stores.antt =====
-- A store with three messages, and safety numbers with the identity for a hash.
use stunner.Base.{ℕ, ◌+◌, ◌≡◌, none, [], ◌∷◌, ◌++◌, arith}
use stunner.Base.Bytes.{codes}
use stunner.SafetyNumber.{compute}
use stunner.SafetyNumber.Digits.{compute_comm}
use stunner.Messaging.{queued}
use stunner.Storage.{StoredMessage, Store, messages}
use stunner.Storage.Pages.{messages-messages}

abbrev message_of : ℕ → StoredMessage
message_of n = record {
  envelope = record {
    version = 1;
    kind = codes "TEXT";
    msg_id = n ∷ [];
    conv_id = codes "conv";
    timestamp = n;
    body = codes "text";
  };
  state = queued;
  conv_id = codes "conv";
}

abbrev pub store : Store
store = record {
  key = codes "key";
  document = record {
    settings = none;
    contacts = [];
    conversations = [];
    messages = (codes "conv", message_of 1 ∷ message_of 2 ∷ message_of 3 ∷ []) ∷ [];
    outbox = [];
    blobs = [];
  };
  disk = none;
}

messages-messages_example :
    messages (codes "conv") 2 1 store ++ messages (codes "conv") 4 (1 + 2) store
    ≡ messages (codes "conv") (2 + 4) 1 store
messages-messages_example = messages-messages (codes "conv") 2 4 1 store (omega arith) (omega arith)

compute_comm_example :
    compute (λ b. b) (codes "one") (codes "two") ≡ compute (λ b. b) (codes "two") (codes "one")
compute_comm_example = compute_comm (λ b. b) (codes "one") (codes "two")
