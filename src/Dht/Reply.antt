-- ===== src/Dht/Reply.antt =====
-- To whom a signaler on libp2p answers.
use stunner.Base.{
  take-append_of_length, drop-append_of_length, ℕ, ◌+◌, ◌≡◌, ◌∙◌, refl, sym, ap, Bool, true, false,
  ◌&&◌, Option, List, [], ◌∷◌, ◌++◌, ltb, ◌==◌, length, if◌then◌else◌, ◌%◌, ◌^◌, ◌<◌, arith,
  Bool-cases, inl, inr,
}
use stunner.Base.Bytes.{Bytes, All, be32, from_be32-be32, length-be32}
use stunner.Base.Eq.{bytes_eq_instance}
use stunner.Base.Result.{ok}
use stunner.Base.Method.{done, state_of}
use stunner.Dht.{
  DhtOffer, DhtSignaler, write_frame, read_full, read_body, read_kind, read_frame, answer_chan,
  offer_to, on_offer, on_answer, on_candidate, on_frame, on_stream, stream_target, send_stream,
  send_sdp, take_offer, recv_sdp,
}

long_enough : (xs ys : Bytes) → ltb (length (xs ++ ys)) (length xs) ≡ false
long_enough [] ys = ground arith
long_enough (x ∷ xs) ys = let rest = long_enough xs ys in ground (arith, rest)

read_full-append : (n : ℕ) (xs ys : Bytes) → length xs ≡ n → read_full n (xs ++ ys) ≡ ok (xs, ys)
unfolding read_full
read_full-append n xs ys e =
    rw
      (
        ← e,
        long_enough xs ys,
        take-append_of_length (length xs) xs ys refl,
        drop-append_of_length (length xs) xs ys refl,
      )
      refl

append_end : (xs : Bytes) → xs ++ [] ≡ xs
append_end [] = refl
append_end (x ∷ xs) = ap (λ l. x ∷ l) (append_end xs)

read_full_all : (n : ℕ) (xs : Bytes) → length xs ≡ n → read_full n xs ≡ ok (xs, [])
read_full_all n xs e = ap (read_full n) (sym (append_end xs)) ∙ read_full-append n xs [] e

read_body-be32 :
    (kind : ℕ) (content : Bytes)
    → length content < 2 ^ 32
    → read_body kind (be32 (length content % 2 ^ 32)) content ≡ ok (kind, content)
unfolding read_body
read_body-be32 kind content h =
    let small : length content % 2 ^ 32 ≡ length content = omega arith in
    rw (small, from_be32-be32 (length content) h, read_full_all (length content) content refl) refl

read_frame-write_frame :
    (kind : ℕ) (content : Bytes)
    → length content < 2 ^ 32
    → read_frame (write_frame kind content) ≡ ok (kind, content)
unfolding read_frame write_frame read_kind be32
read_frame-write_frame kind content h =
    rw
      (read_full-append 5 (kind ∷ be32 (length content % 2 ^ 32)) content
        (ap (λ n. 1 + n) (length-be32 (length content % 2 ^ 32))))
      (read_body-be32 kind content h)

-- A stream that a peer opens and writes one frame on.
pub record Arrival : Type 0 where
  pub chosen : Bool
  pub remote : Bytes
  pub kind : ℕ
  pub content : Bytes

abbrev pub arrive : Arrival → DhtSignaler → DhtSignaler
arrive a s = state_of (on_stream a.chosen a.remote (write_frame a.kind a.content) s)

abbrev pub arrives : List Arrival → DhtSignaler → DhtSignaler
arrives [] s = s
arrives (a ∷ later) s = arrives later (arrive a s)

-- The peer of the last offer among the arrivals, or `from`, if there is none.
abbrev pub last_offerer : Bytes → List Arrival → Bytes
last_offerer from [] = from
last_offerer from (a ∷ later) = last_offerer (if a.kind == b'o' then a.remote else from) later

last_remote-offer_to :
    {A : Type 0} (chosen : Bool) (queue : List A) (put : DhtSignaler → DhtSignaler)
    (s : DhtSignaler)
    → (put s).last_remote ≡ s.last_remote
    → (state_of (offer_to chosen queue put s)).last_remote ≡ s.last_remote
unfolding offer_to
last_remote-offer_to chosen queue put s e = ground (arith, e)

last_remote-no_offer :
    (chosen a c : Bool) (remote content : Bytes) (s : DhtSignaler)
    → (state_of (
        if a
        then on_answer chosen remote content s
        else if c
        then on_candidate chosen content s
        else done tt s)).last_remote
      ≡ s.last_remote
unfolding on_answer on_candidate
last_remote-no_offer chosen true c remote content s =
    last_remote-offer_to chosen (answer_chan remote s) _ s refl
last_remote-no_offer chosen false true remote content s =
    last_remote-offer_to chosen s.cand_in _ s refl
last_remote-no_offer chosen false false remote content s = refl

last_remote-on_frame :
    (chosen : Bool) (remote : Bytes) (kind : ℕ) (content : Bytes) (s : DhtSignaler)
    → (state_of (on_frame chosen remote kind content s)).last_remote
      ≡ (if kind == b'o' then remote else s.last_remote)
unfolding on_frame on_offer
last_remote-on_frame chosen remote kind content s = elim (Bool-cases (kind == b'o')) [
  | inl offer ↦
      rw offer (last_remote-offer_to chosen s.offer_in _ (record s { last_remote = remote }) refl)
  | inr other ↦
      rw other (last_remote-no_offer chosen (kind == b'a') (kind == b'c') remote content s)
]

on_stream_read :
    (chosen : Bool) (remote b : Bytes) (kind : ℕ) (content : Bytes) (s : DhtSignaler)
    → read_frame b ≡ ok (kind, content)
    → on_stream chosen remote b s ≡ on_frame chosen remote kind content s
unfolding on_stream
on_stream_read chosen remote b kind content s e = rw (on_stream, e) refl

last_remote-arrive :
    (a : Arrival) (s : DhtSignaler)
    → length a.content < 2 ^ 32
    → (arrive a s).last_remote ≡ (if a.kind == b'o' then a.remote else s.last_remote)
last_remote-arrive a s h =
    ap (λ o. (state_of {S = DhtSignaler} {A = Unit {0}} o).last_remote)
      (on_stream_read a.chosen a.remote (write_frame a.kind a.content) a.kind a.content s
        (read_frame-write_frame a.kind a.content h))
    ∙ last_remote-on_frame a.chosen a.remote a.kind a.content s

last_remote-arrives :
    (later : List Arrival) (s : DhtSignaler)
    → All (λ a. length a.content < 2 ^ 32) later
    → (arrives later s).last_remote ≡ last_offerer s.last_remote later
last_remote-arrives [] s h = refl
last_remote-arrives (a ∷ later) s (h, hs) =
    last_remote-arrives later (arrive a s) hs
    ∙ ap (λ from. last_offerer from later) (last_remote-arrive a s h)

answer_to_last :
    (decode : Bytes → Option Bytes) (sdp : Bytes) (s : DhtSignaler)
    → (length s.last_remote == 0) ≡ false
    → send_sdp decode (ok tt) (ok tt) [] sdp s ≡ ok (s.last_remote, write_frame b'a' sdp)
unfolding send_sdp send_stream stream_target
answer_to_last decode sdp s e = rw e refl

module _ (decode : Bytes → Option Bytes) (chosen : Bool) (s : DhtSignaler) (f : DhtOffer)
    (rest : List DhtOffer) where
  recv_offer :
      s.offer_in ≡ f ∷ rest
      → (s.stopped && chosen) ≡ false
      → recv_sdp decode chosen [] s
        ≡ done f.payload (record s { offer_in = rest; last_remote = f.from })
  unfolding recv_sdp take_offer
  recv_offer e go_on = rw (go_on, e) refl

  -- The listener takes an offer with RecvSDP, which returns it, and other peers open streams, each
  -- with a frame of less than 2^32 bytes, before it sends its answer: the answer goes to the peer
  -- whose offer was the last to arrive in between, and to the one whose offer was taken, if none did.
  pub send_sdp-recv_sdp :
      (later : List Arrival) (sdp : Bytes)
      → s.offer_in ≡ f ∷ rest
      → (s.stopped && chosen) ≡ false
      → All (λ a. length a.content < 2 ^ 32) later
      → (length (last_offerer f.from later) == 0) ≡ false
      → (t : DhtSignaler) × (recv_sdp decode chosen [] s ≡ done f.payload t)
        × (send_sdp decode (ok tt) (ok tt) [] sdp (arrives later t)
            ≡ ok (last_offerer f.from later, write_frame b'a' sdp))
  send_sdp-recv_sdp later sdp e go_on short named =
      let t : DhtSignaler = record s { offer_in = rest; last_remote = f.from } in
      let to : (arrives later t).last_remote ≡ last_offerer f.from later =
        last_remote-arrives later t short in
      (
        t,
        recv_offer e go_on,
        answer_to_last decode sdp (arrives later t) (ap (λ x. length x == 0) to ∙ named)
            ∙ ap (λ x. ok (x, write_frame b'a' sdp)) to,
      )
