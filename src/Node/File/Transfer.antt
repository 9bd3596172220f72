-- ===== src/Node/File/Transfer.antt =====
-- A file that SendFile sends, ReceiveFile returns.
use stunner.Base.{
  ℕ, suc, ◌+◌, ◌*◌, ◌^◌, ◌<◌, ◌≤◌, ◌≡◌, refl, sym, ap, subst, ◌∙◌, Bool, true, Option, some, List,
  ltb, [], ◌∷◌, length, arith,
}
use mathlib.Core.Path.{fun_ext}
use mathlib.Core.List.Perm
use stunner.Base.Bytes.{Bytes, All, IsByte}
use stunner.Base.Eq.{bytes_eq}
use stunner.Base.Result.{Result, ok, ok_injective, or_err, check, bad_json, bad_capacity}
use stunner.Base.Method.{done, lift, return, ◌>>◌, >>=-done, >>=-done_inv, ◌>>◌}
use stunner.Crypto.Primitives.{Primitives, Codec}
use stunner.Crypto.Ratchet.{WireMessage}
use stunner.Crypto.Ratchet.Chain.{Chain}
use stunner.FileTransfer.{Offer, Chunk, split, reassemble, chunk_count, size_of}
use stunner.FileTransfer.RoundTrip.{chunk_count-split, reassemble-split}
use stunner.Messaging.{Json, Envelope, Frame, Stamp, new_envelope, type_file_offer, type_file_chunk}
use stunner.Transport.{Pipe, End, end_a, end_b, new_pipe, pipe_conn, set_out}
use stunner.Transport.Fifo.{other_end}
use stunner.Node.{Log, Node, Link, persistable, append_to, send_envelope, receive}
use stunner.Node.Establish.{Linked}
use stunner.Node.File.{
  env_for, parse_file_offer, send_chunks, send_file, receive_chunks, receive_file_body,
  receive_file,
}
use stunner.Node.Stream.{
  Awaits, Texts, fits-Texts, no_texts, text, length-Texts, frames, recorded, send_each,
  receive_next, send_each-Sent,
}

lift_ok : {S A : Type 0} (r : Result A) (s : S) {a : A} → r ≡ ok a → lift r s ≡ done a s
lift_ok r s e = rw e refl

parse_file_offer_ok :
    (jo : Json Offer) (s : Stamp) (conv_id b : Bytes) (offer : Offer)
    → jo.unmarshal b ≡ some offer
    → parse_file_offer jo (new_envelope s type_file_offer conv_id b) ≡ ok offer
unfolding parse_file_offer new_envelope bytes_eq
parse_file_offer_ok jo s conv_id b offer u = rw u refl

-- The envelopes of the chunks, from chunk `i` on.
data Bodies (jc : Json Chunk) (stamps : ℕ → Stamp) (conv_id : Bytes)
    : ℕ → List Chunk → List Envelope → Type 0 where
  no_bodies : (i : ℕ) → Bodies jc stamps conv_id i [] []
  body :
      {xs : List Chunk} {envs : List Envelope} (i : ℕ) (x : Chunk) (b : Bytes)
      → jc.marshal x ≡ ok b
      → jc.unmarshal b ≡ some x
      → Bodies jc stamps conv_id (suc i) xs envs
      → Bodies jc stamps conv_id i
          (x ∷ xs)
          (new_envelope (stamps i) type_file_chunk conv_id b ∷ envs)

module _ (jc : Json Chunk) (stamps : ℕ → Stamp) (conv_id : Bytes) where
  fits-Bodies :
      (i : ℕ) (xs : List Chunk)
      → All (λ x. jc.fits x ≡ true) xs
      → (envs : List Envelope) × Bodies jc stamps conv_id i xs envs
  fits-Bodies i [] fits = ([], no_bodies i)
  fits-Bodies i (x ∷ xs) fits =
      let (b, m, u) = jc.unmarshal-marshal x fits.0 in
      let (envs, rest) = fits-Bodies (suc i) xs fits.1 in (_, body i x b m u rest)

  length-Bodies :
      {i : ℕ} {xs : List Chunk} {envs : List Envelope}
      → Bodies jc stamps conv_id i xs envs
      → length envs ≡ length xs
  length-Bodies (no_bodies i) = refl
  length-Bodies (body i x b m u rest) = ap suc (length-Bodies rest)

  envelopes-fit :
      (j : Json Envelope) {i : ℕ} {xs : List Chunk} {envs : List Envelope}
      → ((i : ℕ) (b : Bytes) → j.fits (new_envelope (stamps i) type_file_chunk conv_id b) ≡ true)
      → Bodies jc stamps conv_id i xs envs
      → All (λ env. j.fits env ≡ true) envs
  envelopes-fit j fits (no_bodies i) = tt
  envelopes-fit j fits (body i x b m u rest) = (fits i b, envelopes-fit j fits rest)

  -- Chunks are not persisted.
  recorded-Bodies :
      {D : Type 0} (log : Log D) (s : Option D) {i : ℕ} {xs : List Chunk} {envs : List Envelope}
      → Bodies jc stamps conv_id i xs envs
      → recorded log envs s ≡ s
  unfolding recorded persistable new_envelope bytes_eq
  recorded-Bodies log s (no_bodies i) = refl
  recorded-Bodies log s (body i x b m u rest) = recorded-Bodies log s rest

module _ {D : Type 0} (p : Primitives) (c : Codec WireMessage) (f : Codec Frame) (j : Json Envelope)
    (jo : Json Offer) (jc : Json Chunk) (stamps : ℕ → Stamp) (conv_id : Bytes) (l : Link) where
  send_chunks-Bodies :
      (log : Log D) (d : Bool) (e : End) {i : ℕ} {xs : List Chunk} {envs : List Envelope}
      (n : Node Pipe D)
      → Bodies jc stamps conv_id i xs envs
      → send_chunks p c f j jo jc (pipe_conn d e) log stamps i l conv_id xs n
        ≡ send_each p c f j (pipe_conn d e) log l envs n
  unfolding send_chunks send_each env_for
  send_chunks-Bodies log d e n (no_bodies i) = refl
  send_chunks-Bodies log d e n (body i x b m u rest) =
      let made : env_for jc (stamps i) type_file_chunk conv_id x
          ≡ ok (new_envelope (stamps i) type_file_chunk conv_id b) =
        rw m refl in
      >>=-done (lift (env_for jc (stamps i) type_file_chunk conv_id x)) _ (lift_ok _ n made)
      ∙ ap
          (λ r.
            (send_envelope p c f j (pipe_conn d e) log l
                  (new_envelope (stamps i) type_file_chunk conv_id b)
                >> r)
              n)
          (fun_ext λ t. send_chunks-Bodies log d e t rest)

  module _ (ch : Chain) (k : Bytes) (d : Bool) (e : End) (w : Pipe) (fresh : ℕ → Result Bytes)
      (bytes : All IsByte ch.dh) (length_k : length k ≡ 32) (drawn : fresh 0 ≡ ok k) where
    receive_chunks-Bodies :
        {i : ℕ} {xs : List Chunk} {envs : List Envelope} {ts : List Bytes} (n : ℕ) (b : Node Pipe D)
        → Bodies jc stamps conv_id i xs envs
        → Texts j envs ts
        → n + length ts + 1002 < 2 ^ 32
        → Awaits p c f j ch k l d e w fresh bytes length_k drawn n (frames p c f ch n ts) b
        → (b' : Node Pipe D) × (receive_chunks p c f j jo jc
              (pipe_conn d (other_end e))
              fresh
              n
              l
              (length xs)
              b
            ≡ done xs b')
          × (b'.wire ≡ set_out e [] w)
    unfolding receive_chunks frames new_envelope
    receive_chunks-Bodies n b (no_bodies i) no_texts room v = (b, refl, v.wire)
    receive_chunks-Bodies n b (body {xs} {envs} i x t m u rest) (text env t' m' u' texts) room v =
        let (b1, e1, v1) =
          receive_next p c f j ch k l d e w fresh bytes length_k drawn n env t' _ b (omega arith) u'
            v in
        let (b2, e2, clear) = receive_chunks-Bodies (suc n) b1 rest texts (omega arith) v1 in
        (
          b2,
          >>=-done (receive p c f j (pipe_conn d (other_end e)) (fresh n) l) _ e1
              ∙ >>=-done (lift (or_err (jc.unmarshal t) bad_json)) _ (lift_ok _ b1 (rw u refl))
              ∙ >>=-done
                  (receive_chunks p c f j jo jc (pipe_conn d (other_end e)) fresh (suc n) l
                    (length xs))
                  _ e2,
          clear,
        )

  module _ (d : Bool) (e : End) (s : Stamp) (id name mime contents b key : Bytes) (offer : Offer)
      (xs : List Chunk) (envs : List Envelope) (bodies : Bodies jc stamps conv_id 0 xs envs) where
    send_file_ok :
        (log : Log D) (n n' : Node Pipe D)
        → split p (ok key) id name mime contents 0 ≡ ok (offer, xs)
        → jo.marshal offer ≡ ok b
        → send_each p c f j
            (pipe_conn d e)
            log
            l
            (new_envelope s type_file_offer conv_id b ∷ envs)
            n
          ≡ done tt n'
        → send_file p c f j jo jc
            (pipe_conn d e)
            log
            s
            stamps
            (ok key)
            id
            l
            conv_id
            name
            mime
            contents
            n
          ≡ done offer n'
    unfolding send_file send_each env_for
    send_file_ok log n n' made m sent =
        let env = new_envelope s type_file_offer conv_id b in
        let (u, n1, first, rest) =
          >>=-done_inv (send_envelope p c f j (pipe_conn d e) log l env n)
            (λ _. send_each p c f j (pipe_conn d e) log l envs) sent in
        let ready : env_for jo s type_file_offer conv_id offer ≡ ok env = rw m refl in
        >>=-done (lift (split p (ok key) id name mime contents 0)) _ (lift_ok _ n made)
        ∙ >>=-done (lift (env_for jo s type_file_offer conv_id offer)) _ (lift_ok _ n ready)
        ∙ >>=-done
            (send_envelope p c f j (pipe_conn d e) log l env
              >> send_chunks p c f j jo jc (pipe_conn d e) log stamps 0 l conv_id xs)
            (λ _. return offer)
            (>>=-done (send_envelope p c f j (pipe_conn d e) log l env)
                (λ _. send_chunks p c f j jo jc (pipe_conn d e) log stamps 0 l conv_id xs) first
              ∙ send_chunks-Bodies log d e n1 bodies
              ∙ rest)

    module _ (ch : Chain) (k : Bytes) (w : Pipe) (fresh : ℕ → Result Bytes)
        (bytes : All IsByte ch.dh) (length_k : length k ≡ 32) (drawn : fresh 0 ≡ ok k) where
      receive_file_ok :
          {ts : List Bytes} (n : Node Pipe D)
          → Texts j (new_envelope s type_file_offer conv_id b ∷ envs) ts
          → jo.unmarshal b ≡ some offer
          → length ts + 1002 < 2 ^ 32
          → chunk_count offer ≡ length xs
          → ltb (chunk_count offer) (2 ^ 63) ≡ true
          → reassemble p offer xs ≡ ok contents
          → Awaits p c f j ch k l d e w fresh bytes length_k drawn 0 (frames p c f ch 0 ts) n
          → (n' : Node Pipe D) × (receive_file p c f j jo jc (pipe_conn d (other_end e)) fresh l n
              ≡ done (offer, contents) n')
            × (n'.wire ≡ set_out e [] w)
      unfolding receive_file receive_file_body frames
      receive_file_ok n (text env t m u texts) parsed room counted few whole v =
          let conn = pipe_conn d (other_end e) in
          let (n1, e1, v1) =
            receive_next p c f j ch k l d e w fresh bytes length_k drawn 0 env t _ n (omega arith) u
              v in
          let (n2, e2, clear) =
            receive_chunks-Bodies ch k d e w fresh bytes length_k drawn 1 n1 bodies texts
              (omega arith) v1 in
          let all_in : receive_file_body p c f j jo jc conn fresh 1 l offer n1 ≡ done contents n2 =
            >>=-done
              (lift (check (ltb (chunk_count offer) (2 ^ 63)) bad_capacity)
                >> receive_chunks p c f j jo jc conn fresh 1 l (chunk_count offer))
              _
              (>>=-done (lift (check (ltb (chunk_count offer) (2 ^ 63)) bad_capacity)) _ (
                  lift_ok (check (ltb (chunk_count offer) (2 ^ 63)) bad_capacity) n1
                    (ap (λ t. check t bad_capacity) few))
                ∙ subst (λ i. receive_chunks p c f j jo jc conn fresh 1 l i n1 ≡ done xs n2)
                    (sym counted) e2)
            ∙ lift_ok (reassemble p offer xs) n2 whole in
          (
            n2,
            >>=-done (receive p c f j conn (fresh 0) l) _ e1
                ∙ >>=-done (lift (parse_file_offer jo env)) _ (
                    lift_ok (parse_file_offer jo env) n1
                      (parse_file_offer_ok jo s conv_id b offer parsed))
                ∙ >>=-done (receive_file_body p c f j jo jc conn fresh 1 l offer) _ all_in,
            clear,
          )

below : (n : ℕ) → n ≤ 63 → ltb n (2 ^ 63) ≡ true
below n h = ground arith

-- What Split makes of a file of at most 63 chunks.
split_lem :
    (p : Primitives) (key id name mime contents : Bytes) (offer : Offer) (xs : List Chunk)
    → length key ≡ 32
    → length contents ≤ 63 * 16384
    → split p (ok key) id name mime contents 0 ≡ ok (offer, xs)
    → (chunk_count offer ≡ length xs) × (reassemble p offer xs ≡ ok contents)
unfolding size_of
split_lem p key id name mime contents offer xs n small made =
    let few : 63 < 2 ^ 32 = omega arith in
    let room : length contents + 16384 ≤ 2 ^ 64 = omega arith in
    let less : length contents < 2 ^ 64 = omega arith in
    let (offer', xs', made', counted) =
      chunk_count-split p key id name mime contents 0 63 n small few room in
    let same : (offer', xs') ≡ (offer, xs) = ok_injective _ _ (sym made' ∙ made) in
    (
      subst (λ (x : Offer × List Chunk). chunk_count x.0 ≡ length x.1) same counted,
      reassemble-split p key id name mime contents 0 63 n small few offer xs xs less made
          (Perm.refl xs),
    )

-- A file over a link. Alice and Bob are linked over a pipe, as the interactive handshake leaves
-- them; Split makes of the file, with a key of 32 bytes, an offer and at most 63 chunks, which have
-- valid text, as have the envelopes around them. Then SendFile sends them all and returns the offer,
-- with the offer, and none of the chunks, appended to Alice's store; and ReceiveFile at the other end
-- returns the offer and the file, and leaves the pipe empty.
pub receive_file-send_file :
    {A B : Type 0} (p : Primitives) (c : Codec WireMessage) (f : Codec Frame) (j : Json Envelope)
    (jo : Json Offer) (jc : Json Chunk) (log : Log A) (d d' : Bool) (alice : Node Pipe A)
    (bob : Node Pipe B) (eph ratchet_key k : Bytes) (fresh : ℕ → Result Bytes)
    (v : Linked p f d d' alice bob eph ratchet_key k) (s : Stamp) (stamps : ℕ → Stamp)
    (key id conv_id name mime contents : Bytes) (offer : Offer) (xs : List Chunk)
    → length k ≡ 32
    → fresh 0 ≡ ok k
    → length key ≡ 32
    → split p (ok key) id name mime contents 0 ≡ ok (offer, xs)
    → length contents ≤ 63 * 16384
    → length xs ≤ 63
    → jo.fits offer ≡ true
    → All (λ x. jc.fits x ≡ true) xs
    → ((b : Bytes) → j.fits (new_envelope s type_file_offer conv_id b) ≡ true)
    → ((i : ℕ) (b : Bytes) → j.fits (new_envelope (stamps i) type_file_chunk conv_id b) ≡ true)
    → (a : Node Pipe A) × (b : Node Pipe B) × (body : Bytes) × (send_file p c f j jo jc
          (pipe_conn d end_a)
          log
          s
          stamps
          (ok key)
          id
          v.ours
          conv_id
          name
          mime
          contents
          (record v.alice' { wire = v.bob'.wire })
        ≡ done offer a)
      × (a.store ≡ append_to log (new_envelope s type_file_offer conv_id body) v.alice'.store)
      × (jo.unmarshal body ≡ some offer)
      × (receive_file p c f j jo jc
            (pipe_conn d' end_b)
            fresh
            v.theirs
            (record v.bob' { wire = a.wire })
          ≡ done (offer, contents) b)
      × (b.wire ≡ new_pipe)
unfolding recorded persistable new_envelope bytes_eq other_end new_pipe set_out
receive_file-send_file p c f j jo jc log d d' alice bob eph ratchet_key k fresh v s stamps key id
      conv_id name mime contents offer xs nk drawn n32 made small few fits_offer fits_chunks
      fits_first fits_rest =
    let (counted, whole) = split_lem p key id name mime contents offer xs n32 small made in
    let (b, mb, ub) = jo.unmarshal-marshal offer fits_offer in
    let (envs, bodies) = fits-Bodies jc stamps conv_id 0 xs fits_chunks in
    let env = new_envelope s type_file_offer conv_id b in
    let (ts, texts) =
      fits-Texts j (env ∷ envs)
        (fits_first b, envelopes-fit jc stamps conv_id j fits_rest bodies) in
    let same : length ts ≡ suc (length xs) =
      length-Texts texts ∙ ap suc (length-Bodies jc stamps conv_id bodies) in
    let (a, e, sent, store) =
      send_each-Sent p c f j log v.est.chain k v.ours d end_a new_pipe refl 0 []
        (record v.alice' { wire = v.bob'.wire }) texts (omega arith) (omega arith)
        (record { sends = v.sends; wire = v.clear }) in
    let (n, got, clear) =
      receive_file_ok p c f j jo jc stamps conv_id v.theirs d' end_a s id name mime contents b key
        offer xs envs bodies v.est.chain k new_pipe fresh v.est.bytes nk drawn
        (record v.bob' { wire = a.wire }) texts ub (omega arith) counted
        (ap (λ i. ltb i (2 ^ 63)) counted ∙ below (length xs) few) whole
        (record { reads = v.reads; wire = sent.wire }) in
    (
      a,
      n,
      b,
      send_file_ok p c f j jo jc stamps conv_id v.ours d end_a s id name mime contents b key offer
          xs envs bodies log (record v.alice' { wire = v.bob'.wire }) a made mb e,
      store ∙ recorded-Bodies jc stamps conv_id log (append_to log env v.alice'.store) bodies,
      ub,
      got,
      clear,
    )
