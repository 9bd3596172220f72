-- ===== src/Identity.antt =====
-- core/pkg/identity: the long-term keys, fingerprints and the serialized form.
pub mod Text
pub mod Marshal
use stunner.Base.{
  ℕ, ◌≡◌, Bool, true, false, Option, none, some, List, [], ◌∷◌, ◌++◌, ◌==◌, if◌then◌else◌, length,
  take, drop,
}
use stunner.Base.Bytes.{Bytes}
use stunner.Base.Result.{
  Error, Result, ok, err, ◌>>=◌, ◌>>◌, check, signing_key_not_initialized, invalid_marshaled_length,
  bad_public_key,
}
use stunner.Crypto.Primitives.{Primitives}
use Text.{base32, group}

pub record Identity : Type 0 where
  pub signing_pub : Bytes
  pub signing_priv : Bytes
  pub agreement_priv : Bytes

module _ (p : Primitives) where
  open p use {sha256, public, sign_public, sign, verify}

  -- `Generate`: the arguments are what the two GenerateKey calls return.
  unfoldable pub generate : Result Bytes → Result Bytes → Result Identity
  generate ed x = do
    signing ← ed
    agreement ← x
    ok (record {
      signing_pub = sign_public signing;
      signing_priv = signing;
      agreement_priv = agreement;
    })

  unfoldable pub agreement_pub : Identity → Bytes
  agreement_pub id = public id.agreement_priv

  unfoldable pub fingerprint : Bytes → Bytes
  fingerprint pub_key = group (base32 (sha256 pub_key)) 5

  unfoldable pub discovery_key : Bytes → Bytes → Bytes
  discovery_key pub_key salt = sha256 (pub_key ++ salt)

  -- `Verify`
  unfoldable pub verify_signature : Bytes → Bytes → Bytes → Bool
  verify_signature pub_key message signature =
      if length pub_key == 32 then verify pub_key message signature else false

  -- `Sign`
  unfoldable pub sign_message : Identity → Bytes → Result Bytes
  sign_message id message = do
    check (length id.signing_priv == 64) signing_key_not_initialized
    ok (sign id.signing_priv message)

  unfoldable pub marshal : Identity → Bytes
  marshal id = id.signing_priv ++ id.agreement_priv

  -- `Unmarshal`. NewPrivateKey takes any 32 bytes.
  unfoldable pub unmarshal : Bytes → Result Identity
  unmarshal b = do
    check (length b == 96) invalid_marshaled_length
    check (length (drop 64 b) == 32) bad_public_key
    ok (record {
      signing_pub = sign_public (take 64 b);
      signing_priv = take 64 b;
      agreement_priv = drop 64 b;
    })
