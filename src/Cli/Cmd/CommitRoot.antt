-- ===== src/Cli/Cmd/CommitRoot.antt =====
-- cli/src/cmd/commit_root.rs
use kolz_protocol.Base.{ℕ, true, false, [], ◌∷◌, ◌++◌, ◌==◌}
use kolz_protocol.Bytes.{Bytes}
use kolz_protocol.Constants.{ascii, system_program_id}
use kolz_protocol.Cli.Text.{Text, show_number}
use kolz_protocol.Cli.Error.{CliResult, done, reject_if, ◌>>=◌, ◌>>◌, invalid_arg}
use kolz_protocol.Cli.Discriminator
use kolz_protocol.Cli.Output.{Report}
use kolz_protocol.Cli.Pdas
use kolz_protocol.Cli.Hex.{decode_hex32}
use kolz_protocol.Cli.Host.{Host, RawInstruction, writable, readonly}
use kolz_protocol.Cli.Rpc.{Cli, send}

pub record Args : Type 0 where
  pub epoch : ℕ
  pub root : Text
  pub pool_lamports : ℕ

module _ (host : Host) where
  -- The serialized `CommitPayload`.
  unfoldable pub payload : ℕ → Bytes → ℕ → Bytes
  unfolding Discriminator.instruction
  payload epoch root pool_lamports =
      (host.borsh.array 8).put
        (Discriminator.instruction host.sha256 (ascii "commit_distribution_root"))
      ++ (host.borsh.u64.put epoch
          ++ ((host.borsh.array 32).put root ++ host.borsh.u64.put pool_lamports))

  module _ (cli : Cli) (args : Args) where
    unfoldable pub prepare : CliResult (RawInstruction × (Text → Report))
    unfolding payload decode_hex32 Pdas.config Pdas.distribution Pdas.fee_vault
    prepare = do
      reject_if (args.pool_lamports == 0)
          (invalid_arg (ascii "pool-lamports") (ascii "pool must be greater than zero"))
      root ← decode_hex32 (ascii "root") args.root
      let config_pda = (Pdas.config host.find_program_address cli.program_id).0
      let distribution_pda =
          (Pdas.distribution host.find_program_address cli.program_id args.epoch).0
      let fee_vault_pda = (Pdas.fee_vault host.find_program_address cli.program_id).0
      let oracle = cli.payer.pubkey
      done (
        record {
          program_id = cli.program_id;
          accounts =
              writable oracle true
              ∷ readonly config_pda false
              ∷ writable distribution_pda false
              ∷ writable fee_vault_pda false
              ∷ readonly system_program_id false
              ∷ [];
          payload = payload args.epoch root args.pool_lamports;
        },
        λ sig. record {
          title = ascii "cols commit-root";
          rows =
              (ascii "signature", sig)
              ∷ (ascii "distribution_pda", host.show_pubkey distribution_pda)
              ∷ (ascii "epoch", show_number args.epoch)
              ∷ (ascii "root", args.root)
              ∷ (ascii "pool_lamports", show_number args.pool_lamports)
              ∷ [];
        },
      )

    unfoldable pub run : CliResult Report
    unfolding prepare send
    run = do
      (instruction, report) ← prepare
      sig ← send host cli (instruction ∷ [])
      done (report sig)
