-- ===== src/Base/Result.antt =====
-- Go's `(value, error)` results, and the errors of the source.
use mathlib.Core.Path.{◌≡◌, refl}
use mathlib.Core.Bool.{Bool, true, false}
use mathlib.Core.Option.{Option, none, some}

-- One constructor for each error value of the source. The second line holds the errors that the
-- standard library returns where the source passes them on.
pub data Error : Type 0 where
  signing_key_not_initialized invalid_marshaled_length bad_file_nonce : Error
  bad_json bad_ciphertext bad_cipher_key bad_public_key low_order_point no_entropy : Error
  too_many_skipped no_prekeys bad_prekey_signature bad_transfer_key bad_nonce_size : Error
  missing_or_duplicate_chunk size_mismatch integrity_check_failed expected_file_offer : Error
  key_changed unknown_handle blob_not_found write_failed read_failed bad_store_key empty_path :
      Error
  nil_pointer not_implemented would_block ciphertext_too_short peer_not_found closed
        identity_mismatch missing_bundle missing_handshake no_initiator_handshake bad_uri
        not_contact_uri bad_key_encoding wrong_key_length short_frame no_reply_peer cancelled
        open_timeout channel_timeout bad_capacity :
      Error

pub data Result {ℓ} (T : Type ℓ) : Type ℓ where
  err : Error → Result T
  ok : T → Result T

infixl 5 ◌>>=◌ ◌>>◌
abbrev pub ◌>>=◌ {ℓ κ} : {T : Type ℓ} {U : Type κ} → Result T → (T → Result U) → Result U
err e >>= next = err e
ok t >>= next = next t

abbrev pub ◌>>◌ {ℓ} : {U : Type ℓ} → Result (Unit {0}) → Result U → Result U
r >> next = r >>= λ _. next

-- `if !test { return err }`
abbrev pub check : Bool → Error → Result (Unit {0})
check true e = ok tt
check false e = err e

abbrev pub or_err {ℓ} : {A : Type ℓ} → Option A → Error → Result A
or_err none e = err e
or_err (some a) e = ok a

pub ok_injective {ℓ} : {A : Type ℓ} (a b : A) → ok a ≡ ok b → a ≡ b
ok_injective a b h = cc

-- Inversion of `if !test { return err }` in front of a successful result.
pub check-ok {ℓ} :
    {A : Type ℓ} (t : Bool) (e : Error) (m : Result A) {a : A}
    → (check t e >> m) ≡ ok a
    → (t ≡ true) × (m ≡ ok a)
check-ok true e m h = (refl, h)
check-ok false e m h = absurd (cc)
