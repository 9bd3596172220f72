-- ===== src/Examples/Toy.antt =====
-- A small instance of the cryptographic operations, with none of their secrecy: sums for hashes and
-- keys, a checksum for the tag of a sealed text.
use Prim.Native.Nat.{ℕ, zero, suc}
use stunner.Base.{
  ◌+◌, ◌%◌, ◌≡◌, refl, ap, Option, none, some, [], ◌∷◌, ◌++◌, arith, ◌==◌, ==_iff, if◌then◌else◌,
  length, take, drop, replicate, take-length_append, drop-length_append,
}
use stunner.Base.Bytes.{Bytes, All, IsByte}
use stunner.Base.Eq.{bytes_eq, bytes_eq_refl}
use stunner.Crypto.Primitives.{Primitives, Codec}
use stunner.Crypto.Ratchet.{WireMessage}

abbrev total : Bytes → ℕ
total [] = 0
total (b ∷ bs) = b + total bs

abbrev digest : Bytes → Bytes
digest b = (total b % 256) ∷ replicate 31 0

pub bytes-digest : (b : Bytes) → All IsByte (digest b)
bytes-digest b = ground arith

abbrev pub key_share : Bytes → Bytes → Bytes
key_share key remote = ((total key + total remote) % 256) ∷ replicate 31 0

pub key_share_comm : (a b : Bytes) → key_share a (digest b) ≡ key_share b (digest a)
key_share_comm a b = ap (λ n. n ∷ replicate 31 0) (omega arith)

abbrev tag : Bytes → Bytes → Bytes → ℕ
tag key nonce ad = total key + (total nonce + total ad)

abbrev open_tagged : Bytes → Bytes → Bytes → Bytes → Option Bytes
open_tagged key nonce [] ad = none
open_tagged key nonce (t ∷ text) ad = if t == tag key nonce ad then some text else none

pub open_tagged_lem :
    (key nonce text ad : Bytes) → open_tagged key nonce (tag key nonce ad ∷ text) ad ≡ some text
open_tagged_lem key nonce text ad = rw ((==_iff (tag key nonce ad) (tag key nonce ad)).1 refl)

abbrev pub toy : Primitives
toy = record {
  hmac = λ key message. digest (key ++ message);
  length-hmac = λ key message. refl;
  sha256 = digest;
  length-sha256 = λ message. refl;
  bytes-sha256 = bytes-digest;
  public = digest;
  length-public = λ key. refl;
  bytes-public = bytes-digest;
  ecdh = λ key remote. some (key_share key remote);
  ecdh_comm = λ a b n m. ap some (key_share_comm a b);
  ecdh_public = λ a b n m. (key_share a (digest b), refl);
  seal = λ key nonce text ad. tag key nonce ad ∷ text;
  unseal = open_tagged;
  unseal-seal = λ key nonce text ad n m. open_tagged_lem key nonce text ad;
  is_signing_key = λ key. length key == 64;
  sign_public = digest;
  length-sign_public = λ key. refl;
  sign = λ key message. digest (digest key ++ message);
  verify = λ key message signature. bytes_eq signature (digest (key ++ message));
  verify-sign = λ key message h. bytes_eq_refl (digest (digest key ++ message));
}

abbrev read_rest : Option Bytes → Bytes → Option WireMessage
read_rest dh [] = none
read_rest dh (pn ∷ []) = none
read_rest dh (pn ∷ n ∷ ct) = some (record { dh = dh; pn = pn; n = n; ct = ct })

abbrev read_wire : Bytes → Option WireMessage
read_wire [] = none
read_wire (zero ∷ b) = read_rest none b
read_wire (suc l ∷ b) = read_rest (some (take l b)) (drop l b)

abbrev write_key : Option Bytes → Bytes → Bytes
write_key none rest = 0 ∷ rest
write_key (some key) rest = suc (length key) ∷ key ++ rest

abbrev write_wire : WireMessage → Bytes
write_wire m = write_key m.dh (m.pn ∷ m.n ∷ m.ct)

read-write_key :
    (dh : Option Bytes) (pn n : ℕ) (ct : Bytes)
    → read_wire (write_key dh (pn ∷ n ∷ ct)) ≡ some (record { dh = dh; pn = pn; n = n; ct = ct })
read-write_key none pn n ct = refl
read-write_key (some key) pn n ct =
    rw (take-length_append key (pn ∷ n ∷ ct), drop-length_append key (pn ∷ n ∷ ct)) refl

pub read-write_wire : (m : WireMessage) → read_wire (write_wire m) ≡ some m
read-write_wire m = read-write_key m.dh m.pn m.n m.ct

-- A message with its parts one after the other, the length of the key in front, or 0 without one.
abbrev pub toy_codec : Codec WireMessage
toy_codec = record {
  marshal = write_wire;
  unmarshal = read_wire;
  unmarshal-marshal = read-write_wire;
}
