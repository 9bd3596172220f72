-- ===== src/Crypto/Ratchet/Keys.antt =====
-- The map key of a skipped message key stands for one header only: `hex` and `itoa` lose nothing.
use stunner.Base.{
  ℕ, zero, suc, ◌+◌, ◌-◌, ◌*◌, ◌/◌, ◌%◌, ◌^◌, ◌<◌, ◌≡◌, ◌∙◌, [], ◌∷◌, ◌++◌, arith, ◌==◌, ap, ◌≢◌,
  inl, inr, Bool-cases,
}
use native.Mathlib.Nat.{pow-suc}
use stunner.Base.Bytes.{Bytes, All, IsByte}
use stunner.Crypto.Ratchet.Text.{hex, hex_digit, itoa, itoa_loop}
use stunner.Crypto.Ratchet.{skipped_key}

hex_digit_injective : (a b : ℕ) → a < 16 → b < 16 → hex_digit a ≡ hex_digit b → a ≡ b
unfolding hex_digit
hex_digit_injective a b p q h = ground arith

hex_digit-ne-colon : (a : ℕ) → a < 16 → hex_digit a ≢ b':'
unfolding hex_digit
hex_digit-ne-colon a p h = ground arith

-- The number that decimal digits spell behind `n`.
pub value : ℕ → Bytes → ℕ
value n [] = n
value n (c ∷ s) = value (n * 10 + (c - b'0')) s

value-itoa_loop :
    (fuel n : ℕ) (buf : Bytes) → n < 10 ^ fuel → value 0 (itoa_loop fuel n buf) ≡ value n buf
unfolding value itoa_loop
value-itoa_loop zero n buf h = let e : n ≡ 0 = omega arith in rw e
value-itoa_loop (suc fuel) n buf h = elim (Bool-cases (n == 0)) [
  | inl z ↦ rw z (ap (λ k. value k buf) (ground arith))
  | inr more ↦ rw more (
      value-itoa_loop fuel (n / 10) ((b'0' + n % 10) ∷ buf) (omega (arith, pow-suc 10 fuel))
      ∙ ap (λ k. value k buf) (omega arith))
]

-- The digits that `itoa` writes for a number below 2^32 spell the number again: the ten places of
-- the buffer are enough.
pub value-itoa : (n : ℕ) → n < 2 ^ 32 → value 0 (itoa n) ≡ n
unfolding itoa value
value-itoa n h = elim (Bool-cases (n == 0)) [
  | inl z ↦ rw z (ground arith)
  | inr more ↦ rw more (value-itoa_loop 10 n [] (omega arith))
]

itoa_injective : (m n : ℕ) → m < 2 ^ 32 → n < 2 ^ 32 → itoa m ≡ itoa n → m ≡ n
itoa_injective m n p q h = cc (value-itoa m p, value-itoa n q)

hex_colon_injective :
    (a b s t : Bytes)
    → All IsByte a
    → All IsByte b
    → hex a ++ b':' ∷ s ≡ hex b ++ b':' ∷ t
    → (a ≡ b) × (s ≡ t)
unfolding hex
hex_colon_injective [] [] s t p q h = ground arith
hex_colon_injective [] (y ∷ ys) s t p q h = absurd (ground (arith, hex_digit-ne-colon (y / 16)))
hex_colon_injective (x ∷ xs) [] s t p q h = absurd (ground (arith, hex_digit-ne-colon (x / 16)))
hex_colon_injective (x ∷ xs) (y ∷ ys) s t p q h = ground (
  arith,
  hex_digit_injective (x / 16) (y / 16),
  hex_digit_injective (x % 16) (y % 16),
  hex_colon_injective xs ys s t,
)

-- Two headers whose ratchet keys are bytes and whose counters are below 2^32 have the same key in
-- the map only if they agree in both.
pub skipped_key_injective :
    (a b : Bytes) (m n : ℕ)
    → All IsByte a
    → All IsByte b
    → m < 2 ^ 32
    → n < 2 ^ 32
    → skipped_key a m ≡ skipped_key b n
    → (a ≡ b) × (m ≡ n)
unfolding skipped_key
skipped_key_injective a b m n p q hm hn h =
    let (e, f) = hex_colon_injective a b (itoa m) (itoa n) p q h in (e, itoa_injective m n hm hn f)
