-- ===== src/Cli/Cmd/Settle.antt =====
-- cli/src/cmd/settle.rs
use kolz_protocol.Base.{true, false, [], ◌∷◌}
use kolz_protocol.Bytes.{Bytes}
use kolz_protocol.Constants.{ascii}
use kolz_protocol.Cli.Text.{Text, show_number}
use kolz_protocol.Cli.Error.{CliResult, done, ◌>>=◌, invalid_pubkey}
use kolz_protocol.Cli.Discriminator
use kolz_protocol.Cli.Output.{Report}
use kolz_protocol.Cli.Pdas
use kolz_protocol.Cli.BorshCodec.{decode_king}
use kolz_protocol.Cli.Host.{Host, RawInstruction, writable, readonly}
use kolz_protocol.Cli.Rpc.{Cli, parse_pubkey, send, get_program_account, or_error}
use kolz_protocol.Cli.Cmd.Shared.{
  associated_token_address, spl_token_program_id, spl_ata_program_id, kol_name_bytes,
}

pub record Args : Type 0 where
  pub kol_owner : Text
  pub kol_name : Text

module _ (host : Host) where
  -- The serialized `SettlePayload`.
  unfoldable pub payload : Bytes
  unfolding Discriminator.instruction
  payload = (host.borsh.array 8).put (Discriminator.instruction host.sha256 (ascii "settle_throne"))

  module _ (cli : Cli) (args : Args) where
    unfoldable pub prepare : CliResult (RawInstruction × (Text → Report))
    unfolding payload parse_pubkey kol_name_bytes get_program_account decode_king
        associated_token_address Pdas.config Pdas.pet Pdas.king
    prepare = do
      kol_owner ← parse_pubkey host args.kol_owner
      name_bytes ← kol_name_bytes args.kol_name
      let config_pda = (Pdas.config host.find_program_address cli.program_id).0
      let pet_pda = (Pdas.pet host.find_program_address cli.program_id kol_owner name_bytes).0
      let king_pda = (Pdas.king host.find_program_address cli.program_id pet_pda).0
      king_raw ← get_program_account host cli king_pda
      king ←
          decode_king host.sha256 host.borsh host.borsh_reason (host.show_pubkey king_pda) king_raw
      token_program ← or_error (host.pubkey_from_str spl_token_program_id) invalid_pubkey
      ata_program ← or_error (host.pubkey_from_str spl_ata_program_id) invalid_pubkey
      let champion_ata =
          associated_token_address host king.current_champion king.nft_mint token_program
            ata_program
      let oracle = cli.payer.pubkey
      done (
        record {
          program_id = cli.program_id;
          accounts =
              writable oracle true
              ∷ readonly config_pda false
              ∷ readonly pet_pda false
              ∷ writable king_pda false
              ∷ writable champion_ata false
              ∷ readonly king.current_champion false
              ∷ readonly king.nft_mint false
              ∷ readonly token_program false
              ∷ [];
          payload = payload;
        },
        λ sig. record {
          title = ascii "cols settle";
          rows =
              (ascii "signature", sig)
              ∷ (ascii "pet_pda", host.show_pubkey pet_pda)
              ∷ (ascii "king_pda", host.show_pubkey king_pda)
              ∷ (ascii "final_champion", host.show_pubkey king.current_champion)
              ∷ (ascii "settles_at_slot", show_number king.settles_at_slot)
              ∷ [];
        },
      )

    unfoldable pub run : CliResult Report
    unfolding prepare send
    run = do
      (instruction, report) ← prepare
      sig ← send host cli (instruction ∷ [])
      done (report sig)
