-- ===== src/Cli/Hex.antt =====
-- `decode_hex32`, which cli/src/cmd/commit_root.rs and cli/src/cmd/claim.rs both hold.
pub mod RoundTrip
use kolz_protocol.Base.{
  ℕ, zero, suc, ◌+◌, Bool, true, false, not, ◌||◌, Option, none, some, [], ◌∷◌, ◌++◌, ◌==◌, length,
}
use kolz_protocol.Bytes.{Bytes}
use kolz_protocol.Constants.{ascii}
use kolz_protocol.Cli.Text.{Text, show_number, hex_pair, is_continuation, trim_0x}
use kolz_protocol.Cli.Error.{
  CliResult, done, fail, panic, reject_if, or_fail, ◌>>=◌, ◌>>◌, invalid_hex,
}

-- A slice of a `str` panics where it would cut a character.
abbrev pub check_boundary : Bool → CliResult (Unit {0})
check_boundary true = panic
check_boundary false = done tt

abbrev pub starts_inside : Text → Bool
starts_inside [] = false
starts_inside (b ∷ rest) = is_continuation b

-- The loop over the bytes, from byte `i` on.
unfoldable pub decode_pairs : Text → ℕ → Text → CliResult Bytes
decode_pairs field i [] = done []
decode_pairs field i (a ∷ []) = done []
decode_pairs field i (a ∷ b ∷ rest) = do
  check_boundary (is_continuation a || starts_inside rest)
  byte ← or_fail (hex_pair a b) (
      invalid_hex field
        (ascii "byte " ++ (show_number i ++ ascii ": invalid digit found in string")))
  bytes ← decode_pairs field (suc i) rest
  done (byte ∷ bytes)

unfoldable pub decode_hex32 : Text → Text → CliResult Bytes
unfolding decode_pairs
decode_hex32 field value = do
  let trimmed = trim_0x value
  reject_if (not (length trimmed == 64))
      (invalid_hex field (ascii "expected 64 hex chars, got " ++ show_number (length trimmed)))
  decode_pairs field 0 trimmed
