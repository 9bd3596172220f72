-- ===== src/FileTransfer/RoundTrip.antt =====
-- What `Split` cuts, `Reassemble` puts together.
use mathlib.Core.List.{Perm}
use native.Mathlib.Nat.{le-div_iff_mul-le, div-lt_iff_lt-mul}
use stunner.Base.{
  ℕ, zero, suc, ◌+◌, ◌-◌, ◌*◌, ◌/◌, ◌%◌, ◌^◌, ◌<◌, ◌≤◌, ◌≡◌, ◌⊎◌, refl, sym, subst, ap, ◌∙◌, true,
  false, List, [], ◌∷◌, ◌++◌, arith, ltb, ==_iff, drop-drop, drop_all, if◌then◌else◌, inl, inr,
  Bool-cases, length, take, drop, replicate, take-append-drop, length-append, length-replicate,
}
use stunner.Base.Bytes.{Bytes, be32, length-be32}
use stunner.Base.Result.{ok, ok_injective}
use stunner.Crypto.Primitives.{Primitives}
use stunner.FileTransfer.Seal.{seal_file_ok, open_file-seal}
use stunner.FileTransfer.Order.{RisesFrom, sort_chunks-perm}
use stunner.FileTransfer.Hash.{equal_hash_refl}
use stunner.FileTransfer.{
  size_of, Offer, Chunk, nonce_for, split_loop, split, open_chunks, reassemble, chunk_count,
}

length-nonce_for : (i : ℕ) → length (nonce_for i) ≡ 12
unfolding nonce_for
length-nonce_for i =
    omega
      (arith, length-append (replicate 8 0) (be32 i), length-be32 i, length-replicate {A = ℕ} 8 0)

times_zero : (n : ℕ) → 0 * n ≡ 0
times_zero n = omega arith

times_suc : (m n : ℕ) → suc m * n ≡ n + m * n
times_suc m n = omega arith

-- The end of the round that starts at `off`.
round_end : ℕ → ℕ → ℕ → ℕ
round_end total off size = if ltb total (off + size) then total else off + size

round :
    (off end : ℕ) (contents : Bytes)
    → off ≤ end
    → take (end - off) (drop off contents) ++ drop end contents ≡ drop off contents
round off end contents h =
    ap (λ l. take (end - off) (drop off contents) ++ l)
      (sym (drop-drop (end - off) off end contents (omega arith)))
    ∙ take-append-drop (end - off) (drop off contents)

module _ (p : Primitives) (key id : Bytes) (size : ℕ) (contents : Bytes) (k : length key ≡ 32)
    (pos : 0 < size) where
  -- The chunks that the loop makes from `off`: they rise from `i`, open to the rest of the file,
  -- and their number is that of the pieces of `size` bytes.
  pub record Cuts (i off : ℕ) (cs : List Chunk) : Type 0 where
    pub rises : RisesFrom i cs
    pub opens : open_chunks p key i cs ≡ ok (drop off contents)
    pub covers : length contents ≤ off + length cs * size
    pub tight : off + length cs * size < length contents + size
    pub none_left : off ≡ length contents → cs ≡ []

  open_chunk :
      (i off end : ℕ) (cs : List Chunk)
      → i < 2 ^ 32
      → off ≤ end
      → open_chunks p key (suc i) cs ≡ ok (drop end contents)
      → open_chunks p key i (
          record {
            file_id = id;
            index = i;
            payload = p.seal key (nonce_for i) (take (end - off) (drop off contents)) [];
          }
          ∷ cs)
        ≡ ok (drop off contents)
  unfolding open_chunks
  open_chunk i off end cs h le e =
      let same : i % 2 ^ 32 ≡ i = omega arith in
      rw
        (
          same,
          (==_iff i i).1 refl,
          open_file-seal p key (nonce_for i) (take (end - off) (drop off contents)) k
              (length-nonce_for i),
          e,
        )
        (ap ok (round off end contents le))

  -- One more chunk, when the loop is not yet at the end.
  cut :
      (i off end : ℕ) (cs : List Chunk)
      → i < 2 ^ 32
      → off < end
      → end ≤ length contents
      → end ≤ off + size
      → end ≡ length contents ⊎ (end ≡ off + size)
      → Cuts (suc i) end cs
      → Cuts i off (
          record {
            file_id = id;
            index = i;
            payload = p.seal key (nonce_for i) (take (end - off) (drop off contents)) [];
          }
          ∷ cs)
  cut i off end cs h lt le room last c = record {
    rises = (omega arith, c.rises);
    opens = open_chunk i off end cs h (omega arith) c.opens;
    covers = omega (arith, c.covers, times_suc (length cs) size);
    tight = elim last [
      | inl e ↦
          (let zero_bytes : length cs * size ≡ 0 = rw (c.none_left e) (times_zero size) in
            omega (arith, times_suc (length cs) size))
      | inr e ↦ omega (arith, c.tight, times_suc (length cs) size)
    ];
    none_left = λ e. absurd (omega arith);
  }

  split_loop_more :
      (fuel i off : ℕ) (cs : List Chunk)
      → off < length contents
      → suc i < 2 ^ 32
      → split_loop p fuel key id size (suc i) (round_end (length contents) off size) contents
        ≡ ok cs
      → split_loop p (suc fuel) key id size i off contents
        ≡ ok (
            record {
              file_id = id;
              index = i;
              payload =
                  p.seal key
                    (nonce_for i)
                    (take (round_end (length contents) off size - off) (drop off contents))
                    [];
            }
            ∷ cs)
  unfolding split_loop round_end
  split_loop_more fuel i off cs lt small e =
      let next : (i + 1) % 2 ^ 32 ≡ suc i = omega arith in
      let more : ltb off (length contents) ≡ true = ground arith in
      rw (
        next,
        more,
        e,
        seal_file_ok p key (nonce_for i)
            (take (round_end (length contents) off size - off) (drop off contents)) k
            (length-nonce_for i),
      )

  -- No chunk, when the loop is at the end.
  split_loop_done :
      (fuel i off : ℕ)
      → off ≡ length contents
      → (cs : List Chunk) × (split_loop p fuel key id size i off contents ≡ ok cs) × Cuts i off cs
  unfolding split_loop
  split_loop_done fuel i off at_end = (
    [],
    nothing fuel,
    record {
      rises = tt;
      opens = unfold open_chunks in ap ok (sym (drop_all off contents (omega arith)));
      covers = omega arith;
      tight = omega (arith, times_zero size);
      none_left = λ _. refl;
    },
  )
    where
      nothing : (fuel : ℕ) → split_loop p fuel key id size i off contents ≡ ok []
      nothing zero = refl
      nothing (suc fuel) = let stop : ltb off (length contents) ≡ false = ground arith in rw stop

  split_loop-Cuts :
      (fuel i off n : ℕ)
      → length contents ≤ off + fuel
      → off ≤ length contents
      → length contents ≤ off + n * size
      → i + n < 2 ^ 32
      → (cs : List Chunk) × (split_loop p fuel key id size i off contents ≡ ok cs) × Cuts i off cs
  split_loop-Cuts zero i off n f le m room = split_loop_done zero i off (omega arith)
  split_loop-Cuts (suc fuel) i off zero f le m room =
      split_loop_done (suc fuel) i off (omega (arith, times_zero size))
  split_loop-Cuts (suc fuel) i off (suc n) f le m room =
      let end = round_end (length contents) off size in
      elim (Bool-cases (ltb off (length contents))) [
        | inl more ↦
            (let before : off < length contents = ground arith in
              let after : off < end = unfold round_end in ground arith in
              let within : end ≤ length contents = unfold round_end in ground arith in
              let step : end ≤ off + size = unfold round_end in ground arith in
              let last : end ≡ length contents ⊎ (end ≡ off + size) =
                unfold round_end in ground arith in
              let left : length contents ≤ end + n * size = elim last [
                | inl e ↦ omega arith
                | inr e ↦ omega (arith, times_suc n size)
              ] in
              let small : suc i < 2 ^ 32 = omega arith in
              let (cs, e, c) =
                split_loop-Cuts fuel (suc i) end n (omega arith) within left (omega arith) in
              (
                _,
                split_loop_more fuel i off cs before small e,
                cut i off end cs (omega arith) after within step last c,
              ))
        | inr done ↦ split_loop_done (suc fuel) i off (ground arith)
      ]

size_of_pos : (wanted : ℕ) → 0 < size_of wanted
unfolding size_of
size_of_pos wanted = ground arith

-- `m` pieces of at most `size` bytes, the last of them not empty.
pieces :
    (total size m : ℕ)
    → 0 < size
    → total ≤ m * size
    → m * size < total + size
    → (total + (size - 1)) / size ≡ m
pieces total size m h covers tight =
    let low : m ≤ (total + (size - 1)) / size = (le-div_iff_mul-le h).1 (omega arith) in
    let high : (total + (size - 1)) / size < suc m =
      (div-lt_iff_lt-mul h).1 (omega (arith, times_suc m size)) in
    omega arith

module _ (p : Primitives) (key id name mime contents : Bytes) (wanted n : ℕ) (k : length key ≡ 32)
    (fits : length contents ≤ n * size_of wanted) (few : n < 2 ^ 32) where
  the_cuts :
      (cs : List Chunk) × (split_loop p (length contents) key id (size_of wanted) 0 0 contents
        ≡ ok cs)
      × Cuts p key id (size_of wanted) contents k (size_of_pos wanted) 0 0 cs
  the_cuts =
      split_loop-Cuts p key id (size_of wanted) contents k (size_of_pos wanted) (length contents) 0
        0 n (omega arith) (omega arith) (omega arith) (omega arith)

  the_offer : Offer
  the_offer = record {
    file_id = id;
    name = name;
    size = length contents;
    mime = mime;
    chunk_size = size_of wanted;
    hash = p.sha256 contents;
    transfer_key = key;
  }

  split_ok : split p (ok key) id name mime contents wanted ≡ ok (the_offer, the_cuts.0)
  unfolding split the_offer
  split_ok = rw (the_cuts.1)

  -- A file that takes fewer than 2^32 chunks is split under a key of 32 bytes, and the receiver's
  -- count of the chunks to wait for is their number, as long as the size and one chunk fit 64 bits
  -- together.
  pub chunk_count-split :
      length contents + size_of wanted ≤ 2 ^ 64
      → (offer : Offer) × (cs : List Chunk) × (split p (ok key) id name mime contents wanted
          ≡ ok (offer, cs))
        × (chunk_count offer ≡ length cs)
  unfolding chunk_count the_offer
  chunk_count-split room =
      let (cs, e, c) = the_cuts in
      let pos = size_of_pos wanted in
      let some_size : ltb 0 (size_of wanted) ≡ true = ground arith in
      let small : (length contents + (size_of wanted - 1)) % 2 ^ 64
          ≡ length contents + (size_of wanted - 1) =
        omega arith in
      (
        the_offer,
        cs,
        split_ok,
        rw (some_size, small)
            (pieces (length contents) (size_of wanted) (length cs) pos (omega (arith, c.covers))
              (omega (arith, c.tight))),
      )

  reassemble-the_offer :
      (shuffled : List Chunk)
      → length contents < 2 ^ 64
      → Perm the_cuts.0 shuffled
      → reassemble p the_offer shuffled ≡ ok contents
  unfolding reassemble the_offer
  reassemble-the_offer shuffled room d =
      let c = the_cuts.2 in
      let small : length contents % 2 ^ 64 ≡ length contents = omega arith in
      rw (
        sort_chunks-perm the_cuts.0 shuffled c.rises d,
        c.opens,
        small,
        (==_iff (length contents) (length contents)).1 refl,
        equal_hash_refl (p.sha256 contents) (p.bytes-sha256 contents),
      )

  -- What a successful `Split` with a key of 32 bytes sends of a file that takes fewer than 2^32
  -- chunks and 2^64 bytes, `Reassemble` puts together to the file, in whatever order the chunks
  -- arrive.
  pub reassemble-split :
      (offer : Offer) (cs shuffled : List Chunk)
      → length contents < 2 ^ 64
      → split p (ok key) id name mime contents wanted ≡ ok (offer, cs)
      → Perm cs shuffled
      → reassemble p offer shuffled ≡ ok contents
  reassemble-split offer cs shuffled room s d =
      let same : (the_offer, the_cuts.0) ≡ (offer, cs) = ok_injective _ _ (sym split_ok ∙ s) in
      let order : Perm the_cuts.0 shuffled = subst (λ x. Perm x.1 shuffled) (sym same) d in
      subst (λ x. reassemble p x.0 shuffled ≡ ok contents) same
        (reassemble-the_offer shuffled room order)
