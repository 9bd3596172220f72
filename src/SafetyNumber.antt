-- ===== src/SafetyNumber.antt =====
-- core/pkg/safetynumber/safetynumber.go: the number that two users compare.
pub mod Digits
use stunner.Base.{
  ℕ, zero, suc, ◌+◌, ◌*◌, ◌/◌, ◌%◌, Bool, true, false, ◌&&◌, List, [], ◌∷◌, ◌++◌, ltb, ◌==◌, drop,
  if◌then◌else◌,
}
use stunner.Base.Bytes.{Bytes, sorted_append}

abbrev pub iterations : ℕ
iterations = 5200

-- The five bytes at an offset as a number; the hash is long enough.
unfoldable pub five_bytes : Bytes → ℕ
five_bytes (a ∷ b ∷ c ∷ d ∷ e ∷ rest) = a * 4294967296 + b * 16777216 + c * 65536 + d * 256 + e
five_bytes _ = 0

-- fmt.Sprintf("%05d", v) for a `v` of at most five digits.
unfoldable pub five_digits : ℕ → Bytes
five_digits v =
    (b'0' + v / 10000 % 10)
    ∷ (b'0' + v / 1000 % 10)
    ∷ (b'0' + v / 100 % 10)
    ∷ (b'0' + v / 10 % 10)
    ∷ (b'0' + v % 10)
    ∷ []

unfoldable pub chunk : Bytes → ℕ → Bytes
chunk hash offset = five_digits (five_bytes (drop offset hash) % 100000)

-- The loop of `group` from place `i`: a space in front of every group of five but the first.
unfoldable pub group_from : ℕ → Bytes → Bytes
group_from i [] = []
group_from i (c ∷ s) =
    let rest = group_from (suc i) s in if ltb 0 i && (i % 5 == 0) then b' ' ∷ c ∷ rest else c ∷ rest

unfoldable pub group : Bytes → Bytes
group s = group_from 0 s

-- sha512.Sum512 is a parameter.
module _ (sha512 : Bytes → Bytes) where
  unfoldable pub iterate : ℕ → Bytes → Bytes → Bytes
  iterate zero key d = d
  iterate (suc n) key d = iterate n key (sha512 (d ++ key))

  -- The six chunks of a hash.
  unfoldable pub six_chunks : Bytes → Bytes
  six_chunks hash =
      chunk hash 0
      ++ (chunk hash 5 ++ (chunk hash 10 ++ (chunk hash 15 ++ (chunk hash 20 ++ chunk hash 25))))

  unfoldable pub numeric : Bytes → Bytes
  numeric key = six_chunks (iterate iterations key ((0 ∷ 0 ∷ []) ++ key ++ key))

  -- `Compute`
  unfoldable pub compute : Bytes → Bytes → Bytes
  compute a b = group (sorted_append (numeric a) (numeric b))
