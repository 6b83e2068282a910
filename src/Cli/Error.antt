-- ===== src/Cli/Error.antt =====
-- cli/src/error.rs, and the outcome of a command: a value, an error, or a panic.
use kolz_protocol.Base.{ℕ, Bool, true, false, Option, none, some}
use kolz_protocol.Cli.Text.{Text}

pub data CliError : Type 0 where
  rpc : Text → CliError
  keypair : Text → Text → CliError
  invalid_pubkey : Text → CliError
  invalid_hex : Text → Text → CliError
  invalid_arg : Text → Text → CliError
  account_not_found : Text → CliError
  account_owner_mismatch : Text → Text → Text → CliError
  account_too_small : Text → ℕ → ℕ → CliError
  discriminator_mismatch : Text → Text → Text → CliError
  decode_failed : Text → Text → CliError
  simulation : Text → CliError
  confirmation_timeout : CliError
  io : Text → CliError
  json : Text → CliError
  internal : Text → CliError

pub data CliResult {ℓ} (A : Type ℓ) : Type ℓ where
  fail : CliError → CliResult A
  panic : CliResult A
  done : A → CliResult A

infixl 5 ◌>>◌ ◌>>=◌
abbrev pub ◌>>=◌ {ℓ κ} : {A : Type ℓ} {B : Type κ} → CliResult A → (A → CliResult B) → CliResult B
fail error >>= rest = fail error
panic >>= rest = panic
done value >>= rest = rest value

abbrev pub ◌>>◌ {κ} : {B : Type κ} → CliResult (Unit {0}) → CliResult B → CliResult B
check >> rest = check >>= λ _. rest

-- `if test { return Err(error) }`
abbrev pub reject_if : Bool → CliError → CliResult (Unit {0})
reject_if true error = fail error
reject_if false error = done tt

abbrev pub or_fail {ℓ} : {A : Type ℓ} → Option A → CliError → CliResult A
or_fail none error = fail error
or_fail (some value) error = done value
