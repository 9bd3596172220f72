-- ===== src/Node/File.antt =====
-- Files over a link: SendFile of core/pkg/node/node.go, and core/pkg/node/file.go.
pub mod Transfer
use stunner.Base.{ℕ, zero, suc, ◌+◌, ◌^◌, ltb, none, some, List, [], ◌∷◌, ◌++◌}
use stunner.Base.Bytes.{Bytes}
use stunner.Base.Eq.{bytes_eq}
use stunner.Base.Result.{
  Error, Result, ok, err, ◌>>=◌, ◌>>◌, check, or_err, expected_file_offer, bad_json, bad_capacity,
}
use stunner.Base.Method.{Method, done, lift, return, ◌>>=◌ as ◌then◌, ◌>>◌ as ◌before◌}
use stunner.Crypto.Primitives.{Primitives, Codec}
use stunner.Crypto.Ratchet.{WireMessage}
use stunner.FileTransfer.{Offer, Chunk, split, reassemble, chunk_count}
use stunner.Messaging.{Json, Envelope, Frame, Stamp, new_envelope, type_file_offer, type_file_chunk}
use stunner.Transport.{Conn}
use stunner.Node.{Log, Node, Link, send_envelope, receive}

-- `envFor`: a body that Marshal refuses is a panic.
unfoldable pub env_for : {A : Type 0} → Json A → Stamp → Bytes → Bytes → A → Result Envelope
env_for j s kind conv_id a = do body ← j.marshal a; ok (new_envelope s kind conv_id body)

unfoldable pub parse_file_offer : Json Offer → Envelope → Result Offer
parse_file_offer j env = do
  check (bytes_eq env.kind type_file_offer) expected_file_offer
  or_err (j.unmarshal env.body) bad_json

module _ {W D : Type 0} (p : Primitives) (c : Codec WireMessage) (f : Codec Frame)
    (j : Json Envelope) (jo : Json Offer) (jc : Json Chunk) (conn : Conn W) where
  -- The loop of `SendFile` over the chunks; `stamps i` is what the envelope of chunk `i` takes.
  unfoldable pub send_chunks :
      Log D → (ℕ → Stamp) → ℕ → Link → Bytes → List Chunk → Method (Node W D) (Unit {0})
  send_chunks log stamps i l conv_id [] = return tt
  send_chunks log stamps i l conv_id (x ∷ xs) =
      lift (env_for jc (stamps i) type_file_chunk conv_id x) then λ env.
      send_envelope p c f j conn log l env before send_chunks log stamps (suc i) l conv_id xs

  -- `SendFile`: `g` and `id` are what Split draws.
  unfoldable pub send_file :
      Log D
      → Stamp
      → (ℕ → Stamp)
      → Result Bytes
      → Bytes
      → Link
      → Bytes
      → Bytes
      → Bytes
      → Bytes
      → Method (Node W D) Offer
  send_file log s stamps g id l conv_id name mime contents =
      lift (split p g id name mime contents 0) then λ made.
      lift (env_for jo s type_file_offer conv_id made.0) then λ env.
      send_envelope p c f j conn log l env
      before send_chunks log stamps 0 l conv_id made.1
      before return made.0

  -- The loop of `ReceiveFileBody`; `fresh n` is what GenerateKey returns in the receive number `n`.
  unfoldable pub receive_chunks : (ℕ → Result Bytes) → ℕ → Link → ℕ → Method (Node W D) (List Chunk)
  receive_chunks fresh n l zero = return []
  receive_chunks fresh n l (suc count) = receive p c f j conn (fresh n) l then λ env.
      lift (or_err (jc.unmarshal env.body) bad_json) then λ x.
      receive_chunks fresh (suc n) l count then λ xs. return (x ∷ xs)

  -- `ReceiveFileBody`. A count of 2^63 or more is negative as an int, on which `make` panics.
  unfoldable pub receive_file_body : (ℕ → Result Bytes) → ℕ → Link → Offer → Method (Node W D) Bytes
  receive_file_body fresh n l offer =
      lift (check (ltb (chunk_count offer) (2 ^ 63)) bad_capacity)
      before receive_chunks fresh n l (chunk_count offer)
      then λ xs. lift (reassemble p offer xs)

  -- `ReceiveFile`
  unfoldable pub receive_file : (ℕ → Result Bytes) → Link → Method (Node W D) (Offer × Bytes)
  receive_file fresh l = receive p c f j conn (fresh 0) l then λ env.
      lift (parse_file_offer jo env) then λ offer.
      receive_file_body fresh 1 l offer then λ contents. return (offer, contents)
