-- ===== src/Crypto/Ratchet/Text.antt =====
-- encoding/hex, and `itoa` of core/pkg/crypto/ratchet.go.
use stunner.Base.{ℕ, zero, suc, ◌+◌, ◌-◌, ◌/◌, ◌%◌, [], ◌∷◌, ltb, ◌==◌, if◌then◌else◌}
use stunner.Base.Bytes.{Bytes, codes}

-- One digit of "0123456789abcdef".
unfoldable pub hex_digit : ℕ → ℕ
hex_digit d = if ltb d 10 then b'0' + d else b'a' + (d - 10)

-- hex.EncodeToString
unfoldable pub hex : Bytes → Bytes
unfolding hex_digit
hex [] = []
hex (b ∷ bs) = hex_digit (b / 16) ∷ hex_digit (b % 16) ∷ hex bs

-- `for n > 0`: the digits go to the front of the buffer. The fuel is its size.
unfoldable pub itoa_loop : ℕ → ℕ → Bytes → Bytes
itoa_loop zero n buf = buf
itoa_loop (suc fuel) n buf =
    let rest = itoa_loop fuel (n / 10) ((b'0' + n % 10) ∷ buf) in if n == 0 then buf else rest

unfoldable pub itoa : ℕ → Bytes
itoa n = if n == 0 then codes "0" else itoa_loop 10 n []
