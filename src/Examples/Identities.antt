-- ===== src/Examples/Identities.antt =====
-- Identities of the toy operations, and tests of their text forms.
use stunner.Base.{◌≡◌, refl, ◌∷◌, ◌++◌, replicate, length}
use stunner.Base.Bytes.{Bytes, codes}
use stunner.Base.Result.{ok}
use stunner.Identity.Text.{base32, group}
use stunner.Identity.{Identity, marshal, unmarshal}
use stunner.Identity.Marshal.{unmarshal-marshal, marshal-unmarshal}
use stunner.Examples.Toy.{toy}

base32_foobar : base32 (codes "foobar") ≡ codes "MZXW6YTBOI"
unfolding base32
base32_foobar = refl

group_fives : group (codes "ABCDEFGHIJK") 5 ≡ codes "ABCDE FGHIJ K"
unfolding group
group_fives = refl

abbrev identity : Identity
identity = record {
  signing_pub = 20 ∷ replicate 31 0;
  signing_priv = 20 ∷ replicate 63 0;
  agreement_priv = 21 ∷ replicate 31 0;
}

unmarshal-marshal_example : unmarshal toy (marshal toy identity) ≡ ok identity
unmarshal-marshal_example = unmarshal-marshal toy identity refl refl refl

abbrev stored : Bytes
stored = (20 ∷ replicate 63 0) ++ 21 ∷ replicate 31 0

reads_stored : unmarshal toy stored ≡ ok identity
unfolding unmarshal
reads_stored = refl

marshal-unmarshal_example : (length stored ≡ 96) × (marshal toy identity ≡ stored)
marshal-unmarshal_example = marshal-unmarshal toy stored identity reads_stored
