-- ===== src/Messaging.antt =====
-- core/pkg/messaging: envelopes, the bodies of text messages and receipts, and the frames that
-- travel over a connection.
use stunner.Base.{ℕ, ◌≡◌, Bool, true, Option, none, some, List, []}
use stunner.Base.Bytes.{Bytes, codes}
use stunner.Base.Result.{Result, ok, ◌>>=◌, or_err, bad_json}
use stunner.Crypto.Primitives.{Codec}
use stunner.Crypto.Ratchet.Text.{hex}
use stunner.Crypto.Session.{Handshake}
use stunner.Crypto.X3dh.{PreKeyBundle}

-- encoding/json on a Go type with text or times in it. `fits`: every string of the value is valid
-- UTF-8, since Marshal replaces what is not, and every time has a year of four digits. Such a value
-- Marshal writes, and Unmarshal reads back.
pub record Json (A : Type 0) : Type 0 where
  pub fits : A → Bool
  pub marshal : A → Result Bytes
  pub unmarshal : Bytes → Option A
  pub unmarshal-marshal :
      (a : A) → fits a ≡ true → (b : Bytes) × (marshal a ≡ ok b) × (unmarshal b ≡ some a)

pub record Envelope : Type 0 where
  pub version : ℕ
  pub kind : Bytes
  pub msg_id : Bytes
  pub conv_id : Bytes
  pub timestamp : ℕ
  pub body : Bytes

pub data DeliveryState : Type 0 where
  queued sent delivered was_read send_failed : DeliveryState

pub record Conversation : Type 0 where
  pub id : Bytes
  pub peer_id : Bytes
  pub display_name : Bytes

pub record TextBody : Type 0 where
  pub text : Bytes
  pub animated_emoji : List Bytes

pub record ReceiptBody : Type 0 where
  pub ref_msg_id : Bytes
  pub state : DeliveryState

pub record Frame : Type 0 where
  pub bundle : Option PreKeyBundle
  pub handshake : Option Handshake
  pub payload : Bytes

abbrev pub protocol_version : ℕ
protocol_version = 1

-- The constants of `Type`.
abbrev pub type_text : Bytes
type_text = codes "TEXT"

abbrev pub type_file_offer : Bytes
type_file_offer = codes "FILE_OFFER"

abbrev pub type_file_chunk : Bytes
type_file_chunk = codes "FILE_CHUNK"

abbrev pub type_receipt : Bytes
type_receipt = codes "RECEIPT"

abbrev pub type_typing : Bytes
type_typing = codes "TYPING"

-- What a call of NewEnvelope takes from outside: the 16 bytes that rand.Read leaves in its buffer,
-- and the time.
pub record Stamp : Type 0 where
  pub random : Bytes
  pub now : ℕ

-- newID
unfoldable pub new_id : Bytes → Bytes
new_id random = hex random

unfoldable pub new_envelope : Stamp → Bytes → Bytes → Bytes → Envelope
new_envelope s kind conv_id body = record {
  version = protocol_version;
  kind = kind;
  msg_id = new_id s.random;
  conv_id = conv_id;
  timestamp = s.now;
  body = body;
}

unfoldable pub new_text : Json TextBody → Stamp → Bytes → Bytes → List Bytes → Result Envelope
new_text j s conv_id text animated_emoji = do
  body ← j.marshal (record { text = text; animated_emoji = animated_emoji })
  ok (new_envelope s type_text conv_id body)

-- `Text`
unfoldable pub text_of : Json TextBody → Envelope → Result TextBody
text_of j e = or_err (j.unmarshal e.body) bad_json

unfoldable pub new_receipt :
    Json ReceiptBody → Stamp → Bytes → Bytes → DeliveryState → Result Envelope
new_receipt j s conv_id ref_msg_id state = do
  body ← j.marshal (record { ref_msg_id = ref_msg_id; state = state })
  ok (new_envelope s type_receipt conv_id body)

-- `Receipt`
unfoldable pub receipt_of : Json ReceiptBody → Envelope → Result ReceiptBody
receipt_of j e = or_err (j.unmarshal e.body) bad_json

-- `Encode`
unfoldable pub encode_envelope : Json Envelope → Envelope → Result Bytes
encode_envelope j e = j.marshal e

unfoldable pub decode_envelope : Json Envelope → Bytes → Result Envelope
decode_envelope j b = or_err (j.unmarshal b) bad_json

-- A frame holds byte strings and booleans only, so that its Marshal does not fail.
unfoldable pub encode_frame : Codec Frame → Frame → Bytes
encode_frame c f = c.marshal f

unfoldable pub decode_frame : Codec Frame → Bytes → Result Frame
decode_frame c b = or_err (c.unmarshal b) bad_json

-- The three frames that the node sends.
abbrev pub bundle_frame : PreKeyBundle → Frame
bundle_frame b = record { bundle = some b; handshake = none; payload = [] }

abbrev pub handshake_frame : Handshake → Bytes → Frame
handshake_frame hs payload = record { bundle = none; handshake = some hs; payload = payload }

abbrev pub payload_frame : Bytes → Frame
payload_frame ct = record { bundle = none; handshake = none; payload = ct }
