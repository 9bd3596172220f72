-- ===== src/FileTransfer.antt =====
-- core/pkg/filetransfer, SealFile and OpenFile of core/pkg/crypto/crypto.go, and the counting of
-- chunks in core/pkg/node/file.go.
pub mod Seal
pub mod Order
pub mod Hash
pub mod RoundTrip
use Prim.Native.Nat.{bit_or, bit_xor}
use stunner.Base.{
  ℕ, zero, suc, ◌+◌, ◌-◌, ◌*◌, ◌/◌, ◌%◌, ◌^◌, Bool, true, false, List, [], ◌∷◌, ◌++◌, ltb, ◌==◌,
  if◌then◌else◌, length, take, drop, replicate,
}
use stunner.Base.Bytes.{Bytes, be32}
use stunner.Base.Result.{
  Error, Result, ok, err, ◌>>=◌, ◌>>◌, check, missing_or_duplicate_chunk, size_mismatch,
  integrity_check_failed,
}
use stunner.Crypto.Primitives.{Primitives}
use Seal.{seal_file, open_file}

abbrev pub default_chunk_size : ℕ
default_chunk_size = 16 * 1024

pub record Offer : Type 0 where
  pub file_id : Bytes
  pub name : Bytes
  pub size : ℕ
  pub mime : Bytes
  pub chunk_size : ℕ
  pub hash : Bytes
  pub transfer_key : Bytes

pub record Chunk : Type 0 where
  pub file_id : Bytes
  pub index : ℕ
  pub payload : Bytes

-- nonceFor
unfoldable pub nonce_for : ℕ → Bytes
nonce_for index = replicate 8 0 ++ be32 index

-- `diff |= a[i] ^ b[i]` over all places of `a`; the two have the same length.
pub hash_diff : ℕ → Bytes → Bytes → ℕ
hash_diff diff [] b = diff
hash_diff diff (x ∷ a) [] = diff
hash_diff diff (x ∷ a) (y ∷ b) = hash_diff (bit_or diff (bit_xor x y)) a b

-- equalHash
pub equal_hash : Bytes → Bytes → Bool
equal_hash a b = if length a == length b then hash_diff 0 a b == 0 else false

-- sort.Slice by index. The order of equal indices is left open by Go; here it is the order of
-- arrival.
pub insert_chunk : Chunk → List Chunk → List Chunk
insert_chunk c [] = c ∷ []
insert_chunk c (d ∷ ds) =
    let rest = insert_chunk c ds in if ltb d.index c.index then d ∷ rest else c ∷ d ∷ ds

pub sort_chunks : List Chunk → List Chunk
sort_chunks [] = []
sort_chunks (c ∷ cs) = insert_chunk c (sort_chunks cs)

-- The chunk size that `Split` takes when it is given `chunk_size`.
unfoldable pub size_of : ℕ → ℕ
size_of chunk_size = if chunk_size == 0 then default_chunk_size else chunk_size

module _ (p : Primitives) where
  -- The loop of `Split` from chunk `i` at `off`, on fuel; every round takes at least one byte.
  unfoldable pub split_loop : ℕ → Bytes → Bytes → ℕ → ℕ → ℕ → Bytes → Result (List Chunk)
  split_loop zero key id size i off contents = ok []
  split_loop (suc fuel) key id size i off contents =
      let end = if ltb (length contents) (off + size) then length contents else off + size in
      let rest = split_loop fuel key id size ((i + 1) % 2 ^ 32) end contents in
      if ltb off (length contents)
      then (do
        sealed ← seal_file p key (nonce_for i) (take (end - off) (drop off contents))
        more ← rest
        ok (record { file_id = id; index = i; payload = sealed } ∷ more))
      else ok []

  -- `g` is what rand.Read makes of the key, and `id` what newFileID returns.
  unfoldable pub split :
      Result Bytes → Bytes → Bytes → Bytes → Bytes → ℕ → Result (Offer × List Chunk)
  split g id name mime contents chunk_size = do
    let size = size_of chunk_size
    key ← g
    chunks ← split_loop (length contents) key id size 0 0 contents
    ok (
      record {
        file_id = id;
        name = name;
        size = length contents;
        mime = mime;
        chunk_size = size;
        hash = p.sha256 contents;
        transfer_key = key;
      },
      chunks,
    )

  -- The loop of `Reassemble` from place `i`.
  pub open_chunks : Bytes → ℕ → List Chunk → Result Bytes
  open_chunks key i [] = ok []
  open_chunks key i (c ∷ cs) = do
    check (c.index == i % 2 ^ 32) missing_or_duplicate_chunk
    pt ← open_file p key (nonce_for c.index) c.payload
    rest ← open_chunks key (suc i) cs
    ok (pt ++ rest)

  pub reassemble : Offer → List Chunk → Result Bytes
  reassemble offer chunks = do
    out ← open_chunks offer.transfer_key 0 (sort_chunks chunks)
    check (length out % 2 ^ 64 == offer.size) size_mismatch
    check (equal_hash (p.sha256 out) offer.hash) integrity_check_failed
    ok out

-- The number of chunks that `ReceiveFileBody` waits for. The sum is computed in uint64;
-- `receive_file_body` converts the quotient to int.
pub chunk_count : Offer → ℕ
chunk_count offer =
    if ltb 0 offer.chunk_size
    then (offer.size + (offer.chunk_size - 1)) % 2 ^ 64 / offer.chunk_size
    else 0
