-- ===== src/Examples/Files.antt =====
-- A file that the toy operations seal in three chunks, which arrive in another order.
use mathlib.Core.List.Permᴰ
use stunner.Base.{ℕ, ◌≡◌, ◌≤◌, ◌+◌, ◌*◌, ◌^◌, refl, List, [], ◌∷◌, replicate, length, arith}
use stunner.Base.Bytes.{Bytes, codes, be32}
use stunner.Base.Result.{ok}
use stunner.FileTransfer.Seal.{seal_file, file_gcm}
use stunner.FileTransfer.{
  Offer, Chunk, size_of, split, split_loop, reassemble, chunk_count, nonce_for,
}
use stunner.FileTransfer.RoundTrip.{reassemble-split, chunk_count-split}
use stunner.Examples.Toy.{toy}

abbrev key : Bytes
key = 9 ∷ replicate 31 0

fits : length (codes "abcde") ≤ 3 * size_of 2
unfolding size_of
fits = omega arith

room : length (codes "abcde") + size_of 2 ≤ 2 ^ 64
unfolding size_of
room = omega arith

chunk_count-split_example :
    (offer : Offer) × (cs : List Chunk) × (split toy
        (ok key)
        (codes "id")
        (codes "a.txt")
        (codes "text/plain")
        (codes "abcde")
        2
      ≡ ok (offer, cs))
    × (chunk_count offer ≡ length cs)
chunk_count-split_example =
    chunk_count-split toy key (codes "id") (codes "a.txt") (codes "text/plain") (codes "abcde") 2 3
      refl fits (omega arith) room

abbrev offer : Offer
offer = record {
  file_id = codes "id";
  name = codes "a.txt";
  size = 5;
  mime = codes "text/plain";
  chunk_size = 2;
  hash = 239 ∷ replicate 31 0;
  transfer_key = key;
}

abbrev chunk : ℕ → Bytes → Chunk
chunk i payload = record { file_id = codes "id"; index = i; payload = payload }

abbrev chunks : List Chunk
chunks = chunk 0 (9 ∷ codes "ab") ∷ chunk 1 (10 ∷ codes "cd") ∷ chunk 2 (11 ∷ codes "e") ∷ []

-- The first two chunks overtake each other.
abbrev arrived : List Chunk
arrived = chunk 1 (10 ∷ codes "cd") ∷ chunk 0 (9 ∷ codes "ab") ∷ chunk 2 (11 ∷ codes "e") ∷ []

split_abcde :
    split toy (ok key) (codes "id") (codes "a.txt") (codes "text/plain") (codes "abcde") 2
    ≡ ok (offer, chunks)
unfolding split split_loop size_of seal_file file_gcm nonce_for be32
split_abcde = refl

reassemble-split_example : reassemble toy offer arrived ≡ ok (codes "abcde")
reassemble-split_example =
    reassemble-split toy key (codes "id") (codes "a.txt") (codes "text/plain") (codes "abcde") 2 3
      refl fits (omega arith) offer chunks arrived (omega arith) split_abcde
      ∣ Permᴰ.swap refl refl ∣₁
