-- ===== src/Cli/Cmd/Bind.antt =====
-- cli/src/cmd/bind.rs
use kolz_protocol.Base.{true, false, [], ◌∷◌, ◌++◌}
use kolz_protocol.Bytes.{Bytes}
use kolz_protocol.Constants.{ascii, system_program_id}
use kolz_protocol.Cli.Text.{Text}
use kolz_protocol.Cli.Error.{CliResult, done, ◌>>=◌}
use kolz_protocol.Cli.Discriminator
use kolz_protocol.Cli.Output.{Report}
use kolz_protocol.Cli.Pdas
use kolz_protocol.Cli.Host.{Host, RawInstruction, writable, readonly}
use kolz_protocol.Cli.Rpc.{Cli, parse_pubkey, send}
use kolz_protocol.Cli.Cmd.Shared.{kol_name_bytes}

pub record Args : Type 0 where
  pub kol_owner : Text
  pub pump_mint : Text
  pub kol_name : Text

module _ (host : Host) where
  -- The serialized `BindPayload`.
  unfoldable pub payload : Bytes → Bytes
  unfolding Discriminator.instruction
  payload kol_name =
      (host.borsh.array 8).put
        (Discriminator.instruction host.sha256 (ascii "oracle_bind_pumpfun_launch"))
      ++ (host.borsh.array 32).put kol_name

  module _ (cli : Cli) (args : Args) where
    unfoldable pub prepare : CliResult (RawInstruction × (Text → Report))
    unfolding payload parse_pubkey kol_name_bytes Pdas.config Pdas.pet Pdas.launch
    prepare = do
      kol_owner ← parse_pubkey host args.kol_owner
      pump_mint ← parse_pubkey host args.pump_mint
      name_bytes ← kol_name_bytes args.kol_name
      let config_pda = (Pdas.config host.find_program_address cli.program_id).0
      let pet_pda = (Pdas.pet host.find_program_address cli.program_id kol_owner name_bytes).0
      let launch_pda = (Pdas.launch host.find_program_address cli.program_id pet_pda).0
      let oracle = cli.payer.pubkey
      done (
        record {
          program_id = cli.program_id;
          accounts =
              writable oracle true
              ∷ readonly config_pda false
              ∷ readonly kol_owner false
              ∷ readonly pump_mint false
              ∷ writable pet_pda false
              ∷ writable launch_pda false
              ∷ readonly system_program_id false
              ∷ [];
          payload = payload name_bytes;
        },
        λ sig. record {
          title = ascii "cols bind";
          rows =
              (ascii "signature", sig)
              ∷ (ascii "pet_pda", host.show_pubkey pet_pda)
              ∷ (ascii "launch_pda", host.show_pubkey launch_pda)
              ∷ (ascii "kol_name", args.kol_name)
              ∷ (ascii "kol_owner", host.show_pubkey kol_owner)
              ∷ (ascii "pump_mint", host.show_pubkey pump_mint)
              ∷ [];
        },
      )

    unfoldable pub run : CliResult Report
    unfolding prepare send
    run = do
      (instruction, report) ← prepare
      sig ← send host cli (instruction ∷ [])
      done (report sig)
