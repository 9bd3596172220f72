-- ===== src/SafetyNumber/Digits.antt =====
-- The safety number is the same on both sides, and has its sixty digits in twelve groups.
use stunner.Base.{ℕ, suc, ◌+◌, ◌/◌, ◌<◌, ◌≡◌, refl, ap, [], ◌∷◌, arith, length, length-append}
use stunner.Base.Bytes.{Bytes, sorted_append, sorted_append_comm}
use stunner.SafetyNumber.{chunk, five_digits, group, group_from, six_chunks, numeric, compute}

-- A space for every multiple of five among the places from `i` on.
length-group_from :
    (i : ℕ) (s : Bytes)
    → 0 < i
    → length (group_from i s) + (i + 4) / 5 ≡ length s + (i + length s + 4) / 5
unfolding group_from
length-group_from i [] h = omega arith
length-group_from i (c ∷ s) h = ground (arith, length-group_from (suc i) s (omega arith))

length-group : (s : Bytes) → length s ≡ 60 → length (group s) ≡ 71
unfolding group group_from
length-group [] h = absurd (omega arith)
length-group (c ∷ s) h = ground (arith, length-group_from 1 s (omega arith))

module _ (sha512 : Bytes → Bytes) where
  -- The safety number of two keys does not depend on whose key comes first.
  pub compute_comm : (a b : Bytes) → compute sha512 a b ≡ compute sha512 b a
  unfolding compute
  compute_comm a b = ap group (sorted_append_comm (numeric sha512 a) (numeric sha512 b))

  length-numeric : (key : Bytes) → length (numeric sha512 key) ≡ 30
  unfolding numeric six_chunks chunk five_digits
  length-numeric key = refl

  sixty : (a b : Bytes) → length (sorted_append (numeric sha512 a) (numeric sha512 b)) ≡ 60
  sixty a b = ground (
    arith,
    length-append (numeric sha512 a) (numeric sha512 b),
    length-append (numeric sha512 b) (numeric sha512 a),
    length-numeric a,
    length-numeric b,
  )

  -- The safety number has 71 bytes, those of sixty digits in groups of five, whatever the keys.
  pub length-compute : (a b : Bytes) → length (compute sha512 a b) ≡ 71
  unfolding compute
  length-compute a b =
      length-group (sorted_append (numeric sha512 a) (numeric sha512 b)) (sixty a b)
