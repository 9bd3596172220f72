-- ===== src/Identity/Text.antt =====
-- encoding/base32 without padding, and `group` of core/pkg/identity/identity.go.
use stunner.Base.{ℕ, suc, ◌+◌, ◌-◌, ◌*◌, ◌/◌, ◌%◌, ◌&&◌, List, [], ◌∷◌, ltb, ◌==◌, if◌then◌else◌}
use stunner.Base.Bytes.{Bytes}

-- The eight bits of a byte, the highest first, in front of `rest`.
unfoldable pub byte_bits : ℕ → List ℕ → List ℕ
byte_bits b rest =
    (b / 128 % 2)
    ∷ (b / 64 % 2)
    ∷ (b / 32 % 2)
    ∷ (b / 16 % 2)
    ∷ (b / 8 % 2)
    ∷ (b / 4 % 2)
    ∷ (b / 2 % 2)
    ∷ (b % 2)
    ∷ rest

unfoldable pub bits : Bytes → List ℕ
unfolding byte_bits
bits [] = []
bits (b ∷ bs) = byte_bits b (bits bs)

-- "A" to "Z", then "2" to "7".
unfoldable pub base32_digit : ℕ → ℕ
base32_digit d = if ltb d 26 then b'A' + d else b'2' + (d - 26)

-- One digit for five bits; the last group is filled up with zeros.
unfoldable pub base32_digits : List ℕ → Bytes
unfolding base32_digit
base32_digits [] = []
base32_digits (a ∷ []) = base32_digit (a * 16) ∷ []
base32_digits (a ∷ b ∷ []) = base32_digit (a * 16 + b * 8) ∷ []
base32_digits (a ∷ b ∷ c ∷ []) = base32_digit (a * 16 + b * 8 + c * 4) ∷ []
base32_digits (a ∷ b ∷ c ∷ d ∷ []) = base32_digit (a * 16 + b * 8 + c * 4 + d * 2) ∷ []
base32_digits (a ∷ b ∷ c ∷ d ∷ e ∷ rest) =
    base32_digit (a * 16 + b * 8 + c * 4 + d * 2 + e) ∷ base32_digits rest

unfoldable pub base32 : Bytes → Bytes
unfolding bits base32_digits
base32 b = base32_digits (bits b)

-- The loop of `group` from position `i`; the text is ASCII, so a rune is a byte.
unfoldable pub group_from : ℕ → Bytes → ℕ → Bytes
group_from i [] n = []
group_from i (r ∷ s) n =
    let rest = group_from (suc i) s n in
    if ltb 0 i && (i % n == 0) then b' ' ∷ r ∷ rest else r ∷ rest

unfoldable pub group : Bytes → ℕ → Bytes
unfolding group_from
group s n = if n == 0 then s else group_from 0 s n

-- The text with its spaces left out.
pub unspaced : Bytes → Bytes
unspaced [] = []
unspaced (c ∷ s) = let rest = unspaced s in if c == b' ' then rest else c ∷ rest
