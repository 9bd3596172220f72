-- ===== src/Examples/Ratchets.antt =====
-- Ratchets of the toy operations: tests of the text functions, and the theorems on chains.
use stunner.Base.{
  ℕ, ◌+◌, ◌<◌, ◌≤◌, ◌≡◌, ◌⊎◌, refl, none, some, List, [], ◌∷◌, ◌++◌, arith, Bool, false, length,
  replicate,
}
use stunner.Base.Bytes.{Bytes, codes, All, IsByte}
use stunner.Base.Dict.{lookup}
use stunner.Base.Result.{ok, too_many_skipped, bad_ciphertext}
use stunner.Base.Method.{done, failed, result_of}
use stunner.Crypto.Kdf.{hmac_sha256}
use stunner.Crypto.Ratchet.Text.{hex, itoa, itoa_loop}
use stunner.Crypto.Ratchet.Aead.{aead_open, sealed, aead_open-none}
use stunner.Crypto.Ratchet.Keys.{skipped_key_injective}
use stunner.Crypto.Ratchet.Chain.{
  Chain, Sends, chain_key, message_key, header_at, ciphertext_at, message_at,
}
use stunner.Crypto.Ratchet.Delivery.{Receives, mark}
use stunner.Crypto.Ratchet.AnyOrder.{select, send_all, receive_all, receive-send_any_order}
use stunner.Crypto.Ratchet.Skip.{skip_bounded}
use stunner.Crypto.Ratchet.Turn.{Ahead, chain_of, decrypt_turns}
use stunner.Crypto.Ratchet.Faults.{first_reply_header, encrypt_first_reply, decrypt_forged}
use stunner.Crypto.Ratchet.{
  Ratchet, skip, kdf_root, encrypt, decrypt, header_bytes, encode_message, new_ratchet_responder,
}
use stunner.Crypto.Session.Established.{initiator_ratchet, established-Ahead}
use stunner.Examples.Toy.{toy, toy_codec, key_share}

hex_bytes : hex (0 ∷ 171 ∷ []) ≡ codes "00ab"
unfolding hex
hex_bytes = refl

itoa_max : itoa 4294967295 ≡ codes "4294967295"
unfolding itoa itoa_loop
itoa_max = refl

abbrev key_of : ℕ → Bytes
key_of n = n ∷ replicate 31 0

abbrev chain : Chain
chain = record { dh = key_of 5; pn = 0; ad = codes "ad"; start = key_of 7 }

abbrev sender : Ratchet
sender = record {
  dhs = key_of 5;
  dhr = some (key_of 6);
  rk = key_of 1;
  cks = some (key_of 7);
  ckr = none;
  ns = 0;
  nr = 0;
  pn = 0;
  skipped = [];
  ad = codes "ad";
}

abbrev receiver : Ratchet
receiver = record {
  dhs = key_of 6;
  dhr = some (key_of 5);
  rk = key_of 1;
  cks = none;
  ckr = some (key_of 7);
  ns = 0;
  nr = 0;
  pn = 0;
  skipped = [];
  ad = codes "ad";
}

sender-Sends : Sends toy chain 0 sender
unfolding chain_key
sender-Sends = record {
  key = refl;
  count = refl;
  public = refl;
  previous = refl;
  data_bound = refl;
}

receiver-Receives : (got : ℕ → Bool) → Receives toy chain got receiver
unfolding chain_key lookup
receiver-Receives got = record {
  key = refl;
  remote = refl;
  data_bound = refl;
  pending = λ i hi new. ground arith;
}

key_of_bytes : (n : ℕ) → n < 256 → All IsByte (key_of n)
key_of_bytes n h = ground arith

abbrev texts : List Bytes
texts = codes "one" ∷ codes "two" ∷ codes "three" ∷ []

receive-send_any_order_example :
    (wires : List Bytes) × (s : Ratchet) × (r : Ratchet) × (send_all toy toy_codec texts sender
      ≡ done wires s)
    × (receive_all toy toy_codec (ok (key_of 9)) (select (2 ∷ 0 ∷ []) wires) receiver
        ≡ done (select (2 ∷ 0 ∷ []) texts) r)
receive-send_any_order_example =
    receive-send_any_order toy toy_codec chain (ok (key_of 9)) sender receiver texts (2 ∷ 0 ∷ [])
      (key_of_bytes 5 (omega arith)) sender-Sends (receiver-Receives _) (omega arith) (omega arith)
      (((omega arith, tt)), (tt, tt)) (omega arith, (omega arith, tt))

skip_bounded_example :
    ((receiver.nr + 1000 < 3) × (skip toy 3 receiver ≡ failed too_many_skipped receiver))
    ⊎ ((s : Ratchet) × (skip toy 3 receiver ≡ done tt s)
        × (3 ≤ receiver.nr + 1000)
        × (3 ≤ s.nr)
        × (s.nr ≤ receiver.nr + 1000)
        × (length s.skipped ≤ length receiver.skipped + 1000))
skip_bounded_example = skip_bounded toy 3 receiver (ground arith) (omega arith)

abbrev seven : ℕ
seven = 7

skipped_key_injective_example : (key_of 5 ≡ key_of 5) × (seven ≡ seven)
skipped_key_injective_example =
    skipped_key_injective (key_of 5) (key_of 5) seven seven (key_of_bytes 5 (omega arith))
      (key_of_bytes 5 (omega arith)) (omega arith) (omega arith) refl

encrypt_first_reply_example :
    result_of (
      encrypt toy toy_codec
        (codes "hi")
        (new_ratchet_responder toy (key_of 3) (key_of 6) (codes "ad")))
    ≡ ok (
        encode_message toy_codec (first_reply_header toy (key_of 6)) (
          sealed toy
            (hmac_sha256 toy [] (1 ∷ []))
            (codes "hi")
            (codes "ad" ++ header_bytes (first_reply_header toy (key_of 6)))))
encrypt_first_reply_example =
    encrypt_first_reply toy toy_codec (key_of 3) (key_of 6) (codes "ad") (codes "hi")

decrypt_forged_example :
    (s : Ratchet) × (decrypt toy toy_codec
        (ok (key_of 9))
        (encode_message toy_codec (header_at toy chain 0) [])
        receiver
      ≡ failed bad_ciphertext s)
    × ((m : Bytes)
        → result_of (decrypt toy toy_codec (ok (key_of 9)) (message_at toy toy_codec chain 0 m) s)
          ≡ aead_open toy
              (message_key toy chain 1)
              (ciphertext_at toy chain 0 m)
              (codes "ad" ++ header_bytes (header_at toy chain 0)))
decrypt_forged_example =
    decrypt_forged toy toy_codec chain (ok (key_of 9)) (λ _. false) receiver [] bad_ciphertext
      (omega arith) refl (receiver-Receives _) (aead_open-none toy _ [] _ refl)

-- A pair that a handshake has made.
abbrev shared : Bytes
shared = key_share (key_of 9) (key_of 6)

abbrev ahead : Ratchet
ahead = initiator_ratchet toy (key_of 9) (key_of 3) (key_of 6) (codes "ad") shared

abbrev behind : Ratchet
behind = new_ratchet_responder toy (key_of 3) (key_of 6) (codes "ad")

abbrev first_chain : Chain
first_chain = chain_of toy ahead (kdf_root toy (key_of 3) shared).1

abbrev next_chain : Ratchet → Chain
next_chain b = chain_of toy b (kdf_root toy ahead.rk (key_share (key_of 8) (key_of 9))).1

decrypt_turns_example :
    (b : Ratchet) × (decrypt toy toy_codec
        (ok (key_of 8))
        (message_at toy toy_codec first_chain 2 (codes "late"))
        behind
      ≡ done (codes "late") b)
    × Receives toy first_chain (mark 2 (λ _. false)) b
    × Ahead toy (next_chain b) b ahead
    × Sends toy (next_chain b) 0 b
    × (b.nr ≡ 2 + 1)
unfolding initiator_ratchet new_ratchet_responder chain_of
decrypt_turns_example =
    decrypt_turns toy toy_codec first_chain (key_of 8) (key_share (key_of 8) (key_of 9)) 2
      (codes "late") ahead behind (key_of_bytes 9 (omega arith)) refl refl (omega arith)
      (established-Ahead toy (key_of 9) (key_of 3) (key_of 6) (codes "ad") shared refl refl refl).0
      (established-Ahead toy (key_of 9) (key_of 3) (key_of 6) (codes "ad") shared refl refl refl).2
