-- ===== src/Bytes/LittleEndian.antt =====
-- Little-endian words (`to_le_bytes`).
use kolz_protocol.Base.{
  ℕ, zero, suc, ◌^◌, ◌/◌, ◌%◌, ◌<◌, ◌≡◌, refl, ap, [], ◌∷◌, drop, length, arith,
}
use kolz_protocol.Bytes.{Bytes, to_le_bytes}
use native.Mathlib.Nat.{pow-suc}

pub length-to_le_bytes : (w n : ℕ) → length (to_le_bytes w n) ≡ w
unfolding to_le_bytes
length-to_le_bytes zero n = refl
length-to_le_bytes (suc w) n = ap suc (length-to_le_bytes w (n / 256))

abbrev head_or_zero : Bytes → ℕ
head_or_zero [] = 0
head_or_zero (x ∷ xs) = x

-- Words of `w` bytes that differ have different bytes.
pub to_le_bytes_injective :
    (w m n : ℕ) → m < 256 ^ w → n < 256 ^ w → to_le_bytes w m ≡ to_le_bytes w n → m ≡ n
unfolding to_le_bytes
to_le_bytes_injective zero m n hm hn e = omega arith
to_le_bytes_injective (suc w) m n hm hn e =
    omega (arith, low, to_le_bytes_injective w (m / 256) (n / 256) (fits m hm) (fits n hn) high)
  where
    low : m % 256 ≡ n % 256
    low = ap head_or_zero e

    high : to_le_bytes w (m / 256) ≡ to_le_bytes w (n / 256)
    high = ap (drop 1) e

    fits : (k : ℕ) → k < 256 ^ suc w → k / 256 < 256 ^ w
    fits k h = omega (arith, pow-suc 256 w)
