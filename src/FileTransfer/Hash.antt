-- ===== src/FileTransfer/Hash.antt =====
-- `equalHash` compares byte by byte.
use Prim.Native.Nat.{bit_xor}
use stunner.Base.{ℕ, zero, suc, ◌<◌, ◌≡◌, refl, Bool, true, ◌&&◌, [], ◌∷◌, arith, ==_iff, ◌==◌}
use stunner.Base.Bytes.{Bytes, All, IsByte}
use stunner.FileTransfer.{hash_diff, equal_hash}

all_below : ℕ → (ℕ → Bool) → Bool
all_below zero t = true
all_below (suc n) t = t n && all_below n t

all_below_sound : (n : ℕ) (t : ℕ → Bool) (x : ℕ) → all_below n t ≡ true → x < n → t x ≡ true
unfolding all_below
all_below_sound zero t x h lt = absurd (omega arith)
all_below_sound (suc n) t x h lt = ground (arith, all_below_sound n t x)

xor_table : all_below 256 (λ x. bit_xor x x == 0) ≡ true
unfolding all_below
xor_table = refl

xor_self : (x : ℕ) → x < 256 → bit_xor x x ≡ 0
xor_self x h = (==_iff _ 0).0 (all_below_sound 256 _ x xor_table h)

hash_diff_self : (a : Bytes) → All IsByte a → hash_diff 0 a a ≡ 0
unfolding hash_diff
hash_diff_self [] h = refl
hash_diff_self (x ∷ a) h = rw (xor_self x h.0) (hash_diff_self a h.1)

pub equal_hash_refl : (a : Bytes) → All IsByte a → equal_hash a a ≡ true
unfolding equal_hash
equal_hash_refl a h = rw (hash_diff_self a h) (ground arith)
