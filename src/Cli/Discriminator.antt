-- ===== src/Cli/Discriminator.antt =====
-- cli/src/discriminator.rs. `hash` is `hashv` of the Solana SDK on one slice, SHA-256.
use kolz_protocol.Base.{ℕ, ◌++◌, take}
use kolz_protocol.Bytes.{Bytes}
use kolz_protocol.Constants.{ascii}
use kolz_protocol.Cli.Text.{Text, hex_bytes}

abbrev pub discriminator_len : ℕ
discriminator_len = 8

module _ (hash : Bytes → Bytes) where
  unfoldable pub instruction : Text → Bytes
  instruction name = take discriminator_len (hash (ascii "global:" ++ name))

  unfoldable pub account : Text → Bytes
  account name = take discriminator_len (hash (ascii "account:" ++ name))

unfoldable pub fmt : Bytes → Text
unfolding hex_bytes
fmt bytes = hex_bytes bytes
