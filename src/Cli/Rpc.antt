-- ===== src/Cli/Rpc.antt =====
-- cli/src/rpc.rs.
use kolz_protocol.Base.{not, ◌⊎◌, inl, inr, List, [], ◌∷◌, ◌++◌, map, if◌then◌else◌}
use kolz_protocol.Bytes.{Bytes, Pubkey, bytes_eq}
use kolz_protocol.Constants.{ascii}
use kolz_protocol.Cli.Text.{Text, lower}
use kolz_protocol.Cli.Error.{
  CliError, CliResult, done, fail, reject_if, ◌>>=◌, ◌>>◌, rpc, keypair, invalid_pubkey,
  invalid_arg, account_not_found, account_owner_mismatch,
}
use kolz_protocol.Cli.Host.{Host, Keypair, RawInstruction}

-- `result.map_err(wrap)?`
abbrev pub or_error : {A : Type 0} → Text ⊎ A → (Text → CliError) → CliResult A
or_error (inl message) wrap = fail (wrap message)
or_error (inr value) wrap = done value

abbrev pub default_rpc_url : Text
default_rpc_url = ascii "https://api.mainnet-beta.solana.com"

abbrev pub default_program_id : Text
default_program_id = ascii "11111111111111111111111111111111"

pub data CommitmentLevel : Type 0 where
  processed confirmed finalized : CommitmentLevel

unfoldable pub commitment_level_from_str : Text → CliResult CommitmentLevel
unfolding lower
commitment_level_from_str value =
    let level = map lower value in
    if bytes_eq level (ascii "processed")
    then done processed
    else if bytes_eq level (ascii "confirmed")
    then done confirmed
    else if bytes_eq level (ascii "finalized")
    then done finalized
    else fail (
        invalid_arg (ascii "commitment")
          (ascii "unknown level '" ++ (level ++ ascii "', expected processed|confirmed|finalized")))

-- The context of a command; the RPC client is the host's.
pub record Cli : Type 0 where
  pub payer : Keypair
  pub program_id : Pubkey
  pub commitment : CommitmentLevel

module _ (host : Host) where
  unfoldable pub load_keypair : Text → CliResult Keypair
  load_keypair path = or_error (host.read_keypair_file path) (keypair path)

  unfoldable pub parse_pubkey : Text → CliResult Pubkey
  parse_pubkey value = or_error (host.pubkey_from_str value) invalid_pubkey

  unfoldable pub new_cli : Text → Text → CommitmentLevel → CliResult Cli
  unfolding load_keypair parse_pubkey
  new_cli keypair_path program_id commitment_level = do
    payer ← load_keypair keypair_path
    id ← parse_pubkey program_id
    done (record { payer = payer; program_id = id; commitment = commitment_level })

  module _ (cli : Cli) where
    unfoldable pub send_with_signers : List RawInstruction → List Keypair → CliResult Text
    send_with_signers instructions extra_signers = do
      blockhash ← or_error host.get_latest_blockhash rpc
      or_error
          (host.send_and_confirm (record {
            instructions = instructions;
            payer = cli.payer.pubkey;
            signers = cli.payer.pubkey ∷ map (λ (k : Keypair). k.pubkey) extra_signers;
            blockhash = blockhash;
          }))
          rpc

    unfoldable pub send : List RawInstruction → CliResult Text
    unfolding send_with_signers
    send instructions = send_with_signers instructions []

    unfoldable pub get_program_account : Pubkey → CliResult Bytes
    get_program_account address = do
      account ←
          or_error (host.get_account address) (λ _. account_not_found (host.show_pubkey address))
      reject_if (not (bytes_eq account.owner cli.program_id)) (
          account_owner_mismatch (host.show_pubkey address) (host.show_pubkey cli.program_id)
            (host.show_pubkey account.owner))
      done account.content

    unfoldable pub get_account_data : Pubkey → CliResult Bytes
    get_account_data address = do
      account ←
          or_error (host.get_account address) (λ _. account_not_found (host.show_pubkey address))
      done account.content
