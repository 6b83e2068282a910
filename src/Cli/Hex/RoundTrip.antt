-- ===== src/Cli/Hex/RoundTrip.antt =====
-- `decode_hex32` against `fmt_hex32` of cli/src/output.rs.
use kolz_protocol.Base.{ℕ, suc, ◌*◌, ◌<◌, ◌/◌, ◌%◌, ◌≡◌, refl, some, [], ◌∷◌, length, arith}
use kolz_protocol.Bytes.{Bytes}
use kolz_protocol.Cli.Text.{
  Text, hex_char, hex_bytes, hex_digit, hex_pair, is_continuation, trim_0x,
}
use kolz_protocol.Cli.Error.{done}
use kolz_protocol.Cli.Output.{fmt_hex32}
use kolz_protocol.Cli.Hex.{decode_pairs, decode_hex32}

-- Every number is a byte.
abbrev pub AllBytes : Bytes → Type 0
AllBytes [] = Unit {0}
AllBytes (b ∷ bs) = (b < 256) × AllBytes bs

hex_digit-hex_char : (n : ℕ) → n < 16 → hex_digit (hex_char n) ≡ some n
unfolding hex_digit hex_char
hex_digit-hex_char n h = ground arith

hex_char-ne : (n : ℕ) → n < 16 → (43 < hex_char n) × (hex_char n < 120)
unfolding hex_char
hex_char-ne n h = ground arith

hex_pair-hex_byte : (b : ℕ) → b < 256 → hex_pair (hex_char (b / 16)) (hex_char (b % 16)) ≡ some b
unfolding hex_pair
hex_pair-hex_byte b h = ground (
  arith,
  hex_digit-hex_char (b / 16) (omega arith),
  hex_digit-hex_char (b % 16) (omega arith),
  hex_char-ne (b / 16) (omega arith),
)

length-hex_bytes : (bs : Bytes) → length (hex_bytes bs) ≡ 2 * length bs
unfolding hex_bytes
length-hex_bytes [] = omega arith
length-hex_bytes (b ∷ bs) = omega (arith, length-hex_bytes bs)

trim_0x-hex_bytes : (bs : Bytes) → AllBytes bs → trim_0x (hex_bytes bs) ≡ hex_bytes bs
unfolding hex_bytes trim_0x
trim_0x-hex_bytes [] h = refl
trim_0x-hex_bytes (b ∷ bs) h = ground (arith, hex_char-ne (b % 16) (omega arith))

decode_pairs-hex_bytes :
    (field : Text) (i : ℕ) (bs : Bytes)
    → AllBytes bs
    → decode_pairs field i (hex_bytes bs) ≡ done bs
unfolding hex_bytes decode_pairs is_continuation
decode_pairs-hex_bytes field i [] h = refl
decode_pairs-hex_bytes field i (b ∷ []) h =
    ground (arith, hex_pair-hex_byte b, hex_char-ne (b / 16) (omega arith))
decode_pairs-hex_bytes field i (b ∷ c ∷ bs) h = ground (
  arith,
  hex_pair-hex_byte b,
  hex_char-ne (b / 16) (omega arith),
  hex_char-ne (c / 16) (omega arith),
  decode_pairs-hex_bytes field (suc i) (c ∷ bs),
)

-- The hash that `inspect` prints is the hash that `commit-root` and `claim` read: 32 bytes, shown and
-- decoded again, come back.
pub decode_hex32-fmt_hex32 :
    (field : Text) (bs : Bytes)
    → length bs ≡ 32
    → AllBytes bs
    → decode_hex32 field (fmt_hex32 bs) ≡ done bs
unfolding decode_hex32 fmt_hex32
decode_hex32-fmt_hex32 field bs size h =
    rw (trim_0x-hex_bytes bs h)
      (ground (arith, length-hex_bytes bs, decode_pairs-hex_bytes field 0 bs))
