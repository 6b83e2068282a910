-- ===== src/Cli/Text.antt =====
-- Text of cli/src: strings are their UTF-8 bytes. What the client formats with Rust's `{}` and
-- `{:02x}`, and the methods of `str` that it calls.
use kolz_protocol.Base.{
  ℕ, zero, suc, ◌+◌, ◌-◌, ◌*◌, ◌/◌, ◌%◌, Bool, ◌&&◌, Option, none, some, [], ◌∷◌, ◌++◌, ltb, leb,
  ◌==◌, if◌then◌else◌,
}
use kolz_protocol.Bytes.{Bytes}

abbrev pub Text : Type 0
Text = Bytes

-- The decimal digits of a number; a number has no more digits than it is large, and one at least.
unfoldable pub digits : ℕ → ℕ → Text
digits zero n = []
digits (suc fuel) n =
    let rest = digits fuel (n / 10) ++ ((48 + n % 10) ∷ []) in
    if ltb n 10 then (48 + n) ∷ [] else rest

unfoldable pub show_number : ℕ → Text
unfolding digits
show_number n = digits (suc n) n

unfoldable pub hex_char : ℕ → ℕ
hex_char n = if ltb n 10 then 48 + n else 87 + n

-- `{:02x}` of a byte.
unfoldable pub hex_byte : ℕ → Text
unfolding hex_char
hex_byte b = hex_char (b / 16) ∷ hex_char (b % 16) ∷ []

unfoldable pub hex_bytes : Bytes → Text
unfolding hex_byte
hex_bytes [] = []
hex_bytes (b ∷ bs) = hex_byte b ++ hex_bytes bs

unfoldable pub hex_digit : ℕ → Option ℕ
hex_digit c =
    if leb 48 c && leb c 57
    then some (c - 48)
    else if leb 97 c && leb c 102
    then some (c - 87)
    else if leb 65 c && leb c 70
    then some (c - 55)
    else none

-- `u8::from_str_radix(s, 16)` of a string of two bytes: a `+` may stand before a digit.
unfoldable pub hex_pair : ℕ → ℕ → Option ℕ
unfolding hex_digit
hex_pair a b = if a == 43 then hex_digit b else elim (hex_digit a) [
  | none ↦ none
  | some x ↦ elim (hex_digit b) [ none ↦ none | some y ↦ some (16 * x + y) ]
]

-- A byte that continues a character: no slice of a `str` may start or end before it.
unfoldable pub is_continuation : ℕ → Bool
is_continuation b = leb 128 b && ltb b 192

-- `trim_start_matches("0x")`, which takes the prefix away as often as it stands there.
unfoldable pub trim_0x : Text → Text
trim_0x [] = []
trim_0x (a ∷ []) = a ∷ []
trim_0x (a ∷ b ∷ rest) =
    let trimmed = trim_0x rest in if a == 48 && b == 120 then trimmed else a ∷ b ∷ rest

-- `to_ascii_lowercase` of one byte.
unfoldable pub lower : ℕ → ℕ
lower c = if leb 65 c && leb c 90 then c + 32 else c
