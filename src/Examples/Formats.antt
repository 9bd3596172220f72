-- ===== src/Examples/Formats.antt =====
-- Binary formats put together from small ones, as instances of the codecs of the models.
use stunner.Base.{
  ℕ, zero, suc, ◌≡◌, refl, ap, sym, ◌∙◌, Bool, true, false, Option, none, some, List, [], ◌∷◌, ◌++◌,
  length,
}
use mathlib.Core.List.{append_assoc}
use stunner.Base.Bytes.{Bytes}
use stunner.Base.Result.{ok}
use stunner.Crypto.Primitives.{Codec}
use stunner.Crypto.Session.{Handshake}
use stunner.Crypto.X3dh.{PreKeyBundle}
use stunner.Messaging.{Json, Envelope, Frame}
use stunner.FileTransfer.{Offer, Chunk}

-- What `write` makes of a value, `read` takes off the front again.
pub record Format (A : Type 0) : Type 0 where
  pub write : A → Bytes
  pub read : Bytes → Option (A × Bytes)
  pub read-write : (a : A) (rest : Bytes) → read (write a ++ rest) ≡ some (a, rest)

abbrev read_nat : Bytes → Option (ℕ × Bytes)
read_nat [] = none
read_nat (n ∷ b) = some (n, b)

abbrev pub nat : Format ℕ
nat = record { write = λ n. n ∷ []; read = read_nat; read-write = λ n rest. refl }

abbrev and_then :
    {A B : Type 0} → Option (A × Bytes) → (A → Bytes → Option (B × Bytes)) → Option (B × Bytes)
and_then none k = none
and_then (some (a, b)) k = k a b

module _ {A B : Type 0} (x : Format A) (y : Format B) where
  abbrev read_pair : Bytes → Option ((A × B) × Bytes)
  read_pair b = and_then (x.read b) λ a rest. and_then (y.read rest) λ c rest. some ((a, c), rest)

  pub read-write_pair :
      (a : A) (c : B) (rest : Bytes)
      → read_pair ((x.write a ++ y.write c) ++ rest) ≡ some ((a, c), rest)
  read-write_pair a c rest =
      rw
        (
          append_assoc (x.write a) (y.write c) rest,
          x.read-write a (y.write c ++ rest),
          and_then,
          y.read-write c rest,
        )
        refl

  abbrev pub pair : Format (A × B)
  pair = record {
    write = λ v. x.write v.0 ++ y.write v.1;
    read = read_pair;
    read-write = λ v rest. read-write_pair v.0 v.1 rest;
  }

module _ {A B : Type 0} (x : Format A) (to : A → B) (from : B → A)
    (same : (b : B) → to (from b) ≡ b) where
  pub read-write_via :
      (b : B) (rest : Bytes)
      → and_then (x.read (x.write (from b) ++ rest)) (λ a r. some (to a, r)) ≡ some (b, rest)
  read-write_via b rest =
      rw (x.read-write (from b) rest, and_then) (ap (λ c. some (c, rest)) (same b))

  -- A format by way of another type.
  abbrev pub via : Format B
  via = record {
    write = λ b. x.write (from b);
    read = λ bs. and_then (x.read bs) (λ a r. some (to a, r));
    read-write = read-write_via;
  }

module _ {A : Type 0} (x : Format A) where
  abbrev write_items : List A → Bytes
  write_items [] = []
  write_items (a ∷ as') = x.write a ++ write_items as'

  abbrev read_items : ℕ → Bytes → Option (List A × Bytes)
  read_items zero b = some ([], b)
  read_items (suc n) b =
      and_then (x.read b) λ a rest. and_then (read_items n rest) λ more rest. some (a ∷ more, rest)

  pub read-write_items :
      (l : List A) (rest : Bytes) → read_items (length l) (write_items l ++ rest) ≡ some (l, rest)
  read-write_items [] rest = refl
  read-write_items (a ∷ l) rest =
      rw
        (
          append_assoc (x.write a) (write_items l) rest,
          x.read-write a (write_items l ++ rest),
          and_then,
          read-write_items l rest,
        )
        refl

  abbrev read_list : Bytes → Option (List A × Bytes)
  read_list [] = none
  read_list (n ∷ b) = read_items n b

  abbrev pub list : Format (List A)
  list = record {
    write = λ l. length l ∷ write_items l;
    read = read_list;
    read-write = read-write_items;
  }

  append_nil : (b : Bytes) → b ++ [] ≡ b
  append_nil [] = refl
  append_nil (n ∷ b) = ap (λ l. n ∷ l) (append_nil b)

  abbrev first_of : Option (A × Bytes) → Option A
  first_of none = none
  first_of (some (a, b)) = some a

  pub unmarshal-marshal : (a : A) → first_of (x.read (x.write a)) ≡ some a
  unmarshal-marshal a =
      ap (λ b. first_of (x.read b)) (sym (append_nil (x.write a))) ∙ ap first_of (x.read-write a [])

  abbrev pub codec : Codec A
  codec = record {
    marshal = x.write;
    unmarshal = λ b. first_of (x.read b);
    unmarshal-marshal = unmarshal-marshal;
  }

  abbrev pub json : Json A
  json = record {
    fits = λ a. true;
    marshal = λ a. ok (x.write a);
    unmarshal = λ b. first_of (x.read b);
    unmarshal-marshal = λ a h. (x.write a, refl, unmarshal-marshal a);
  }

abbrev pub bytes : Format Bytes
bytes = list nat

abbrev bool_of : ℕ → Bool
bool_of zero = false
bool_of (suc n) = true

abbrev nat_of : Bool → ℕ
nat_of false = 0
nat_of true = 1

pub bool_of-nat_of : (b : Bool) → bool_of (nat_of b) ≡ b
bool_of-nat_of true = refl
bool_of-nat_of false = refl

abbrev pub bool : Format Bool
bool = via nat bool_of nat_of bool_of-nat_of

abbrev head_of : {A : Type 0} → List A → Option A
head_of [] = none
head_of (a ∷ l) = some a

abbrev single : {A : Type 0} → Option A → List A
single none = []
single (some a) = a ∷ []

pub head_of-single : {A : Type 0} (o : Option A) → head_of (single o) ≡ o
head_of-single none = refl
head_of-single (some a) = refl

abbrev pub option : {A : Type 0} → Format A → Format (Option A)
option x = via (list x) head_of single head_of-single

abbrev bundle_of : Bytes × (Bytes × (Bytes × (Bytes × Bytes))) → PreKeyBundle
bundle_of (a, (b, (c, (d, e)))) = record {
  identity_sign = a;
  identity_dh = b;
  signed_pre_key = c;
  signed_pre_key_sig = d;
  one_time_pre_key = e;
}

abbrev pub bundle : Format PreKeyBundle
bundle =
    via (pair bytes (pair bytes (pair bytes (pair bytes bytes)))) bundle_of
      (λ b. (
        b.identity_sign,
        (b.identity_dh, (b.signed_pre_key, (b.signed_pre_key_sig, b.one_time_pre_key))),
      ))
      (λ b. refl)

abbrev handshake_of : Bytes × (Bytes × (Bytes × Bool)) → Handshake
handshake_of (a, (b, (c, d))) = record {
  identity_sign = a;
  identity_dh = b;
  ephemeral = c;
  used_otp = d;
}

abbrev pub handshake : Format Handshake
handshake =
    via (pair bytes (pair bytes (pair bytes bool))) handshake_of
      (λ h. (h.identity_sign, (h.identity_dh, (h.ephemeral, h.used_otp)))) (λ h. refl)

abbrev frame_of : Option PreKeyBundle × (Option Handshake × Bytes) → Frame
frame_of (b, (h, p)) = record { bundle = b; handshake = h; payload = p }

abbrev pub frame : Format Frame
frame =
    via (pair (option bundle) (pair (option handshake) bytes)) frame_of
      (λ f. (f.bundle, (f.handshake, f.payload))) (λ f. refl)

abbrev envelope_of : ℕ × (Bytes × (Bytes × (Bytes × (ℕ × Bytes)))) → Envelope
envelope_of (v, (k, (m, (c, (t, b))))) = record {
  version = v;
  kind = k;
  msg_id = m;
  conv_id = c;
  timestamp = t;
  body = b;
}

abbrev pub envelope : Format Envelope
envelope =
    via (pair nat (pair bytes (pair bytes (pair bytes (pair nat bytes))))) envelope_of
      (λ e. (e.version, (e.kind, (e.msg_id, (e.conv_id, (e.timestamp, e.body)))))) (λ e. refl)

abbrev offer_of : Bytes × (Bytes × (ℕ × (Bytes × (ℕ × (Bytes × Bytes))))) → Offer
offer_of (i, (n, (s, (m, (c, (h, k)))))) = record {
  file_id = i;
  name = n;
  size = s;
  mime = m;
  chunk_size = c;
  hash = h;
  transfer_key = k;
}

abbrev pub offer : Format Offer
offer =
    via (pair bytes (pair bytes (pair nat (pair bytes (pair nat (pair bytes bytes)))))) offer_of
      (λ o. (o.file_id, (o.name, (o.size, (o.mime, (o.chunk_size, (o.hash, o.transfer_key)))))))
      (λ o. refl)

abbrev chunk_of : Bytes × (ℕ × Bytes) → Chunk
chunk_of (i, (n, b)) = record { file_id = i; index = n; payload = b }

abbrev pub chunk : Format Chunk
chunk =
    via (pair bytes (pair nat bytes)) chunk_of (λ c. (c.file_id, (c.index, c.payload))) (λ c. refl)
