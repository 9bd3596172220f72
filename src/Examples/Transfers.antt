-- ===== src/Examples/Transfers.antt =====
-- A small file that one of the two linked nodes sends to the other.
use stunner.Base.{ℕ, ◌≡◌, refl, true, false, some, List, [], ◌∷◌, replicate, arith}
use stunner.Base.Bytes.{Bytes, codes, be32}
use stunner.Base.Result.{ok}
use stunner.Base.Method.{done}
use stunner.FileTransfer.{Offer, Chunk, split, split_loop, size_of, nonce_for}
use stunner.FileTransfer.Seal.{seal_file, file_gcm}
use stunner.Messaging.{Envelope, Stamp, new_envelope, type_file_offer}
use stunner.Transport.{Pipe, end_a, end_b, new_pipe, pipe_conn}
use stunner.Node.{Node, append_to}
use stunner.Node.File.{send_file, receive_file}
use stunner.Node.File.Transfer.{receive_file-send_file}
use stunner.Examples.Formats.{
  codec, json, frame, envelope, offer as offer_format, chunk as chunk_format,
}
use stunner.Examples.Nodes.{log, node, draw, linked}
use stunner.Examples.Sessions.{alice, bob, key_of}
use stunner.Examples.Toy.{toy, toy_codec}

abbrev stamp : ℕ → Stamp
stamp n = record { random = replicate 16 n; now = n }

abbrev offer : Offer
offer = record {
  file_id = codes "id";
  name = codes "a.txt";
  size = 5;
  mime = codes "text/plain";
  chunk_size = 16384;
  hash = 239 ∷ replicate 31 0;
  transfer_key = key_of 9;
}

abbrev chunks : List Chunk
chunks = record { file_id = codes "id"; index = 0; payload = 9 ∷ codes "abcde" } ∷ []

split_abcde :
    split toy (ok (key_of 9)) (codes "id") (codes "a.txt") (codes "text/plain") (codes "abcde") 0
    ≡ ok (offer, chunks)
unfolding split split_loop size_of seal_file file_gcm nonce_for be32
split_abcde = refl

receive_file-send_file_example :
    (a b : Node Pipe (List Envelope)) × (body : Bytes) × (send_file toy toy_codec
        (codec frame)
        (json envelope)
        (json offer_format)
        (json chunk_format)
        (pipe_conn true end_a)
        log
        (stamp 0)
        stamp
        (ok (key_of 9))
        (codes "id")
        linked.ours
        (codes "conv")
        (codes "a.txt")
        (codes "text/plain")
        (codes "abcde")
        (record linked.alice' { wire = linked.bob'.wire })
      ≡ done offer a)
    × (a.store
        ≡ append_to log
            (new_envelope (stamp 0) type_file_offer (codes "conv") body)
            linked.alice'.store)
    × ((json offer_format).unmarshal body ≡ some offer)
    × (receive_file toy toy_codec
          (codec frame)
          (json envelope)
          (json offer_format)
          (json chunk_format)
          (pipe_conn false end_b)
          draw
          linked.theirs
          (record linked.bob' { wire = a.wire })
        ≡ done (offer, codes "abcde") b)
    × (b.wire ≡ new_pipe)
receive_file-send_file_example =
    receive_file-send_file toy toy_codec (codec frame) (json envelope) (json offer_format)
      (json chunk_format) log true false (node alice) (node bob) (key_of 7) (key_of 8) (key_of 9)
      draw linked (stamp 0) stamp (key_of 9) (codes "id") (codes "conv") (codes "a.txt")
      (codes "text/plain") (codes "abcde") offer chunks refl refl refl split_abcde (omega arith)
      (omega arith) refl (refl, tt) (λ b. refl) (λ i b. refl)
