-- ===== src/Cli/BorshCodec.antt =====
-- The functions of cli/src/borsh_codec.rs. `lossy` is `String::from_utf8_lossy` and `reason` the text
-- of borsh's error, both parameters.
pub mod Padding
pub mod Names
pub mod RoundTrip
use kolz_protocol.Base.{
  ℕ, Bool, not, Option, none, some, List, [], ◌∷◌, ltb, ◌==◌, if◌then◌else◌, length, take, drop,
}
use kolz_protocol.Bytes.{Bytes, bytes_eq}
use kolz_protocol.Constants.{ascii}
use kolz_protocol.Borsh.{Borsh}
use kolz_protocol.Cli.Text.{Text}
use kolz_protocol.Cli.Error.{
  CliResult, done, fail, reject_if, ◌>>=◌, ◌>>◌, account_too_small, discriminator_mismatch,
  decode_failed,
}
use kolz_protocol.Cli.Discriminator
use kolz_protocol.Cli.Discriminator.{discriminator_len}
use kolz_protocol.Cli.Accounts.{
  Config, Pet, Launch, KingOfHill, Distribution, HolderClaim, read_config, read_pet, read_launch,
  read_king, read_distribution, read_holder_claim,
}

module _ (hash : Bytes → Bytes) where
  unfoldable pub split_discriminator : Text → Text → Bytes → CliResult Bytes
  unfolding Discriminator.fmt Discriminator.account
  split_discriminator address expected_account raw = do
    reject_if (ltb (length raw) discriminator_len)
        (account_too_small address discriminator_len (length raw))
    let expected = Discriminator.account hash expected_account
    let actual = take discriminator_len raw
    reject_if (not (bytes_eq actual expected))
        (discriminator_mismatch address (Discriminator.fmt expected) (Discriminator.fmt actual))
    done (drop discriminator_len raw)

-- `T::try_from_slice`: the fields are read, and no byte may be left over.
unfoldable pub decode :
    {T : Type 0} → (Bytes → Option (T × Bytes)) → Text → Text → Bytes → CliResult T
decode read reason target body = elim (read body) [
  | none ↦ fail (decode_failed target reason)
  | some (value, []) ↦ done value
  | some (value, left ∷ over) ↦ fail (decode_failed target reason)
]

module _ (hash : Bytes → Bytes) (b : Borsh) (reason : Text) where
  unfoldable pub decode_config : Text → Bytes → CliResult Config
  decode_config address raw = do
    body ← split_discriminator hash address (ascii "Config") raw
    decode (read_config b) reason (ascii "Config") body

  unfoldable pub decode_pet : Text → Bytes → CliResult Pet
  decode_pet address raw = do
    body ← split_discriminator hash address (ascii "Pet") raw
    decode (read_pet b) reason (ascii "Pet") body

  unfoldable pub decode_launch : Text → Bytes → CliResult Launch
  decode_launch address raw = do
    body ← split_discriminator hash address (ascii "Launch") raw
    decode (read_launch b) reason (ascii "Launch") body

  unfoldable pub decode_king : Text → Bytes → CliResult KingOfHill
  decode_king address raw = do
    body ← split_discriminator hash address (ascii "KingOfHill") raw
    decode (read_king b) reason (ascii "KingOfHill") body

  unfoldable pub decode_distribution : Text → Bytes → CliResult Distribution
  decode_distribution address raw = do
    body ← split_discriminator hash address (ascii "Distribution") raw
    decode (read_distribution b) reason (ascii "Distribution") body

  unfoldable pub decode_holder_claim : Text → Bytes → CliResult HolderClaim
  decode_holder_claim address raw = do
    body ← split_discriminator hash address (ascii "HolderClaim") raw
    decode (read_holder_claim b) reason (ascii "HolderClaim") body

-- The bytes before the first zero, or all.
unfoldable pub before_zero : Bytes → Bytes
before_zero [] = []
before_zero (x ∷ xs) = let rest = x ∷ before_zero xs in if x == 0 then [] else rest

unfoldable pub kol_name_to_string : (Bytes → Text) → Bytes → Text
unfolding before_zero
kol_name_to_string lossy name = lossy (before_zero name)
