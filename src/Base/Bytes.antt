-- ===== src/Base/Bytes.antt =====
-- Byte sequences and Go strings (which are byte sequences): literals, the order of `bytes.Compare`
-- and of Go's `<=` on strings, and encoding/binary's big-endian integers.
use Prim.Native.Nat.{ℕ, ◌+◌, ◌*◌, ◌/◌, ◌%◌, ◌^◌, ◌<◌, compare, Ordering}
use Prim.Native.Char.{code}
use Prim.Native.String.{String}
use mathlib.Core.Path.{◌≡◌, refl}
use mathlib.Core.Bool.{Bool, true, false}
use mathlib.Core.List.{List, [], ◌∷◌, ◌++◌}
use native.Mathlib.Omega.{arith}
use stunner.Base.Tests.{if◌then◌else◌}
use stunner.Base.Lists.{length}

abbrev pub Bytes : Type 0
Bytes = List ℕ

-- The bytes of an ASCII literal.
abbrev pub codes : String → Bytes
codes String.[] = []
codes (String.◌∷◌ c s) = code c ∷ codes s

abbrev pub All {ℓ κ} : {T : Type ℓ} → (T → Type κ) → List T → Type κ
All Q [] = Unit
All Q (t ∷ ts) = Q t × All Q ts

pub All-append {ℓ κ} :
    {T : Type ℓ} (Q : T → Type κ) (ts us : List T) → All Q ts → All Q us → All Q (ts ++ us)
All-append Q [] us all_ts all_us = all_us
All-append Q (t ∷ ts) us all_ts all_us = (all_ts.0, All-append Q ts us all_ts.1 all_us)

abbrev pub IsByte : ℕ → Type 0
IsByte b = b < 256

-- a <= b in the lexicographic order.
unfoldable pub bytes_le : Bytes → Bytes → Bool
bytes_le [] ys = true
bytes_le (x ∷ xs) [] = false
bytes_le (x ∷ xs) (y ∷ ys) = elim (compare x y) [
  | Ordering.lt ↦ true
  | Ordering.eq ↦ bytes_le xs ys
  | Ordering.gt ↦ false
]

pub bytes_le_antisymm : (a b : Bytes) → bytes_le a b ≡ true → bytes_le b a ≡ true → a ≡ b
unfolding bytes_le
bytes_le_antisymm [] [] p q = refl
bytes_le_antisymm [] (y ∷ ys) p q = ground arith
bytes_le_antisymm (x ∷ xs) [] p q = ground arith
bytes_le_antisymm (x ∷ xs) (y ∷ ys) p q = ground (arith, bytes_le_antisymm xs ys)

pub bytes_le_total : (a b : Bytes) → bytes_le a b ≡ false → bytes_le b a ≡ true
unfolding bytes_le
bytes_le_total [] b p = ground arith
bytes_le_total (x ∷ xs) [] p = refl
bytes_le_total (x ∷ xs) (y ∷ ys) p = ground (arith, bytes_le_total xs ys)

-- The two texts in sorted order, one behind the other, do not depend on the order of the arguments.
abbrev pub sorted_append : Bytes → Bytes → Bytes
sorted_append a b = if bytes_le a b then a ++ b else b ++ a

pub sorted_append_comm : (a b : Bytes) → sorted_append a b ≡ sorted_append b a
sorted_append_comm a b =
    ground (arith, bytes_le_antisymm a b, bytes_le_total a b, bytes_le_total b a)

-- binary.BigEndian.PutUint32.
unfoldable pub be32 : ℕ → Bytes
be32 n = (n / 2 ^ 24 % 256) ∷ (n / 2 ^ 16 % 256) ∷ (n / 2 ^ 8 % 256) ∷ (n % 256) ∷ []

-- binary.BigEndian.Uint32 of four bytes.
unfoldable pub from_be32 : Bytes → ℕ
from_be32 (a ∷ b ∷ c ∷ d ∷ []) = a * 2 ^ 24 + b * 2 ^ 16 + c * 2 ^ 8 + d
from_be32 other = 0

pub from_be32-be32 : (n : ℕ) → n < 2 ^ 32 → from_be32 (be32 n) ≡ n
unfolding from_be32 be32
from_be32-be32 n h = omega arith

pub length-be32 : (n : ℕ) → length (be32 n) ≡ 4
unfolding be32
length-be32 n = refl
