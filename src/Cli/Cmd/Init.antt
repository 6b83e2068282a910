-- ===== src/Cli/Cmd/Init.antt =====
-- cli/src/cmd/init.rs
use kolz_protocol.Base.{ℕ, true, false, [], ◌∷◌, ◌++◌, ltb}
use kolz_protocol.Bytes.{Bytes, Pubkey}
use kolz_protocol.Constants.{ascii, system_program_id}
use kolz_protocol.Cli.Text.{Text, show_number}
use kolz_protocol.Cli.Error.{CliResult, done, reject_if, ◌>>=◌, ◌>>◌, invalid_arg}
use kolz_protocol.Cli.Discriminator
use kolz_protocol.Cli.Output.{Report}
use kolz_protocol.Cli.Pdas
use kolz_protocol.Cli.Host.{Host, RawInstruction, writable, readonly}
use kolz_protocol.Cli.Rpc.{Cli, parse_pubkey, send}

pub record Args : Type 0 where
  pub oracle : Text
  pub fee_basis_points : ℕ

module _ (host : Host) where
  -- The serialized `InitConfigPayload`.
  unfoldable pub payload : Pubkey → ℕ → Bytes
  unfolding Discriminator.instruction
  payload oracle fee_basis_points =
      (host.borsh.array 8).put (Discriminator.instruction host.sha256 (ascii "init_config"))
      ++ ((host.borsh.array 32).put oracle ++ host.borsh.u32.put fee_basis_points)

  module _ (cli : Cli) (args : Args) where
    -- `run` up to the call of `send`; the report is that of the signature to come.
    unfoldable pub prepare : CliResult (RawInstruction × (Text → Report))
    unfolding payload parse_pubkey Pdas.config
    prepare = do
      reject_if (ltb 10_000 args.fee_basis_points) (
          invalid_arg (ascii "fee-bps") (
            ascii "value "
            ++ (show_number args.fee_basis_points
                ++ ascii " exceeds 10000 basis points (100 percent) cap")))
      oracle ← parse_pubkey host args.oracle
      let config_pda = (Pdas.config host.find_program_address cli.program_id).0
      let admin = cli.payer.pubkey
      done (
        record {
          program_id = cli.program_id;
          accounts =
              writable config_pda false
              ∷ writable admin true
              ∷ readonly system_program_id false
              ∷ [];
          payload = payload oracle args.fee_basis_points;
        },
        λ sig. record {
          title = ascii "cols init";
          rows =
              (ascii "signature", sig)
              ∷ (ascii "config_pda", host.show_pubkey config_pda)
              ∷ (ascii "admin", host.show_pubkey admin)
              ∷ (ascii "oracle", host.show_pubkey oracle)
              ∷ (ascii "fee_bps", show_number args.fee_basis_points)
              ∷ [];
        },
      )

    unfoldable pub run : CliResult Report
    unfolding prepare send
    run = do
      (instruction, report) ← prepare
      sig ← send host cli (instruction ∷ [])
      done (report sig)
