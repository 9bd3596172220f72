-- ===== src/Crypto/Ratchet.antt =====
-- core/pkg/crypto/ratchet.go and wire.go: the Double Ratchet. The state is changed in place, so a
-- method that fails leaves what it has written until then. The argument `fresh` is what
-- ecdh.X25519().GenerateKey returns if the method calls it.
pub mod Text
pub mod Aead
pub mod Keys
pub mod Chain
pub mod Delivery
pub mod AnyOrder
pub mod Skip
pub mod Turn
pub mod Faults
use stunner.Base.{
  ℕ, zero, suc, ◌+◌, ◌-◌, ◌%◌, ◌^◌, ◌≡◌, Bool, true, false, not, ◌||◌, Option, none, some, List, [],
  ◌∷◌, ◌++◌, ltb, if◌then◌else◌, take, drop, length, ◌==◌,
}
use stunner.Base.Bytes.{Bytes, codes, be32}
use stunner.Base.Eq.{bytes_eq, bytes_eq_instance}
use stunner.Base.Dict.{Dict, lookup, insert, remove}
use stunner.Base.Result.{
  Error, Result, ok, err, or_err, bad_json, bad_public_key, low_order_point, too_many_skipped,
}
use stunner.Base.Method.{Outcome, Method, done, failed, ◌>>=◌, ◌>>◌, return, get, modify, lift}
use stunner.Crypto.Primitives.{Primitives, Codec}
use stunner.Crypto.Kdf.{hkdf, hmac_sha256}
use Text.{hex, itoa}
use Aead.{aead_seal, aead_open}

abbrev pub max_skip : ℕ
max_skip = 1000

abbrev pub u32 : ℕ
u32 = 2 ^ 32

-- `none` is a nil slice.
pub record Ratchet : Type 0 where
  pub dhs : Bytes
  pub dhr : Option Bytes
  pub rk : Bytes
  pub cks : Option Bytes
  pub ckr : Option Bytes
  pub ns : ℕ
  pub nr : ℕ
  pub pn : ℕ
  pub skipped : Dict Bytes Bytes
  pub ad : Bytes

-- A ratchet key that a header lacks is a nil slice.
pub record Header : Type 0 where
  pub dh : Option Bytes
  pub pn : ℕ
  pub n : ℕ

pub record WireMessage : Type 0 where
  pub dh : Option Bytes
  pub pn : ℕ
  pub n : ℕ
  pub ct : Bytes

-- A nil slice has no bytes.
abbrev pub slice : Option Bytes → Bytes
slice none = []
slice (some b) = b

unfoldable pub header_bytes : Header → Bytes
header_bytes h = slice h.dh ++ (be32 h.pn ++ be32 h.n)

-- The key of the map of skipped message keys.
unfoldable pub skipped_key : Bytes → ℕ → Bytes
skipped_key dh n = hex dh ++ b':' ∷ itoa n

-- r.dhr == nil || !equal(h.DH, r.dhr)
unfoldable pub is_new_dh : Option Bytes → Bytes → Bool
is_new_dh none dh = true
is_new_dh (some dhr) dh = not (bytes_eq dh dhr)

module _ (c : Codec WireMessage) where
  unfoldable pub encode_message : Header → Bytes → Bytes
  encode_message h ct = c.marshal (record { dh = h.dh; pn = h.pn; n = h.n; ct = ct })

  unfoldable pub decode_message : Bytes → Result (Header × Bytes)
  decode_message wire = elim (c.unmarshal wire) [
    | none ↦ err bad_json
    | some m ↦ ok (record { dh = m.dh; pn = m.pn; n = m.n }, m.ct)
  ]

module _ (p : Primitives) where
  open p use {public, ecdh}

  -- The new root key and the chain key.
  unfoldable pub kdf_root : Bytes → Bytes → Bytes × Bytes
  kdf_root rk dh_out =
      let out = hkdf p rk dh_out (codes "stunner-root") 64 in (take 32 out, drop 32 out)

  -- The message key and the chain key behind it.
  unfoldable pub chain_step : Option Bytes → Bytes × Bytes
  chain_step ck = (hmac_sha256 p (slice ck) (1 ∷ []), hmac_sha256 p (slice ck) (2 ∷ []))

  -- ecdh.X25519().NewPublicKey, which checks the length, and ECDH with our ratchet key.
  unfoldable pub dh : Ratchet → Bytes → Result Bytes
  dh r remote =
      if length remote == 32 then or_err (ecdh r.dhs remote) low_order_point else err bad_public_key

  -- newRatchetInitiator
  unfoldable pub new_ratchet_initiator : Result Bytes → Bytes → Bytes → Bytes → Result Ratchet
  new_ratchet_initiator (err e) sk remote ad = err e
  new_ratchet_initiator (ok fresh) sk remote ad =
      let r : Ratchet = record {
        dhs = fresh;
        dhr = some remote;
        rk = [];
        cks = none;
        ckr = none;
        ns = 0;
        nr = 0;
        pn = 0;
        skipped = [];
        ad = ad;
      } in
      elim (dh r remote) [
        | err e ↦ err e
        | ok out ↦ ok (record r { rk = (kdf_root sk out).0; cks = some (kdf_root sk out).1 })
      ]

  -- newRatchetResponder
  unfoldable pub new_ratchet_responder : Bytes → Bytes → Bytes → Ratchet
  new_ratchet_responder sk signed_pre ad = record {
    dhs = signed_pre;
    dhr = none;
    rk = sk;
    cks = none;
    ckr = none;
    ns = 0;
    nr = 0;
    pn = 0;
    skipped = [];
    ad = ad;
  }

  -- One round of the loop of `skip`.
  unfoldable pub skip_one : Ratchet → Ratchet
  skip_one r = record r {
    ckr = some (chain_step r.ckr).1;
    skipped = insert (skipped_key (slice r.dhr) r.nr) (chain_step r.ckr).0 r.skipped;
    nr = r.nr + 1;
  }

  -- `for r.nr < until`: the rounds are `until - r.nr`.
  unfoldable pub skip_loop : ℕ → Ratchet → Ratchet
  skip_loop zero r = r
  skip_loop (suc rounds) r = skip_loop rounds (skip_one r)

  -- `r.nr+maxSkip` is computed in uint32.
  unfoldable pub skip : ℕ → Method Ratchet (Unit {0})
  skip until r = elim r.ckr [
    | none ↦ done tt r
    | some ck ↦
        if ltb ((r.nr + max_skip) % u32) until
        then failed too_many_skipped r
        else done tt (skip_loop (until - r.nr) r)
  ]

  -- The assignments that `dhRatchet` makes before it computes anything.
  unfoldable pub turn_over : Option Bytes → Ratchet → Ratchet
  turn_over remote r = record r { pn = r.ns; ns = 0; nr = 0; dhr = remote }

  unfoldable pub set_receiving : Bytes → Ratchet → Ratchet
  set_receiving out r = record r { rk = (kdf_root r.rk out).0; ckr = some (kdf_root r.rk out).1 }

  unfoldable pub set_sending : Bytes → Ratchet → Ratchet
  set_sending out r = record r { rk = (kdf_root r.rk out).0; cks = some (kdf_root r.rk out).1 }

  unfoldable pub dh_ratchet : Result Bytes → Option Bytes → Method Ratchet (Unit {0})
  dh_ratchet fresh remote = do
    modify (turn_over remote)
    r ← get
    out ← lift (dh r (slice remote))
    modify (set_receiving out)
    dhs ← lift fresh
    modify (λ s. record s { dhs = dhs })
    s ← get
    out' ← lift (dh s (slice remote))
    modify (set_sending out')

module _ (p : Primitives) (c : Codec WireMessage) where
  -- The header of the next message, and the state once its key is taken.
  unfoldable pub next_header : Ratchet → Header
  next_header r = record { dh = some (p.public r.dhs); pn = r.pn; n = r.ns }

  unfoldable pub advance_sending : Ratchet → Ratchet
  advance_sending r = record r { cks = some (chain_step p r.cks).1; ns = (r.ns + 1) % u32 }

  unfoldable pub encrypt : Bytes → Method Ratchet Bytes
  encrypt plaintext r =
      (do
        modify advance_sending
        ct ←
            lift
              (aead_seal p (chain_step p r.cks).0 plaintext (r.ad ++ header_bytes (next_header r)))
        return (encode_message c (next_header r) ct))
        r

  -- `none` where the map holds no key for the header; a key is dropped only once it has worked.
  unfoldable pub try_skipped : Header → Bytes → Method Ratchet (Option Bytes)
  try_skipped h ct r = elim (lookup (skipped_key (slice h.dh) h.n) r.skipped) [
    | none ↦ done none r
    | some mk ↦ elim (aead_open p mk ct (r.ad ++ header_bytes h)) [
      | err e ↦ failed e r
      | ok pt ↦
          done (some pt) (record r { skipped = remove (skipped_key (slice h.dh) h.n) r.skipped })
    ]
  ]

  -- The steps of `decrypt` on a header whose ratchet key is new.
  unfoldable pub follow_ratchet : Result Bytes → Header → Method Ratchet (Unit {0})
  follow_ratchet fresh h r =
      if is_new_dh r.dhr (slice h.dh)
      then (do skip p h.pn; dh_ratchet p fresh h.dh) r
      else done tt r

  unfoldable pub advance_receiving : Ratchet → Ratchet
  advance_receiving r = record r { ckr = some (chain_step p r.ckr).1; nr = (r.nr + 1) % u32 }

  -- The end of `decrypt`: the next key of the receiving chain opens the message.
  unfoldable pub open_next : Header → Bytes → Method Ratchet Bytes
  open_next h ct r =
      (do
        modify advance_receiving
        lift (aead_open p (chain_step p r.ckr).0 ct (r.ad ++ header_bytes h)))
        r

  -- `decrypt` behind `trySkipped`.
  unfoldable pub after_skipped : Result Bytes → Header → Bytes → Option Bytes → Method Ratchet Bytes
  after_skipped fresh h ct (some pt) = return pt
  after_skipped fresh h ct none = do follow_ratchet fresh h; skip p h.n; open_next h ct

  unfoldable pub decrypt : Result Bytes → Bytes → Method Ratchet Bytes
  decrypt fresh wire = do
    m ← lift (decode_message c wire)
    found ← try_skipped m.0 m.1
    after_skipped fresh m.0 m.1 found
