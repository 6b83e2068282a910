-- ===== src/Cli/Cmd/TakeThrone.antt =====
-- cli/src/cmd/take_throne.rs
use kolz_protocol.Base.{true, false, Option, none, some, [], ◌∷◌, ◌==◌, if◌then◌else◌}
use kolz_protocol.Bytes.{Bytes, Pubkey}
use kolz_protocol.Constants.{ascii, system_program_id}
use kolz_protocol.Cli.Text.{Text}
use kolz_protocol.Cli.Error.{CliResult, done, ◌>>=◌, invalid_pubkey}
use kolz_protocol.Cli.Discriminator
use kolz_protocol.Cli.Output.{Report}
use kolz_protocol.Cli.Pdas
use kolz_protocol.Cli.BorshCodec.{decode_king, decode_launch}
use kolz_protocol.Cli.Host.{Host, RawInstruction, writable, readonly}
use kolz_protocol.Cli.Rpc.{Cli, parse_pubkey, send, get_program_account, or_error}
use kolz_protocol.Cli.Cmd.Shared.{
  associated_token_address, spl_token_program_id, spl_ata_program_id, kol_name_bytes,
}

pub record Args : Type 0 where
  pub kol_owner : Text
  pub kol_name : Text
  pub memecoin_mint : Option Text

module _ (host : Host) where
  -- The serialized `TakePayload`.
  unfoldable pub payload : Bytes
  unfolding Discriminator.instruction
  payload = (host.borsh.array 8).put (Discriminator.instruction host.sha256 (ascii "take_throne"))

  module _ (cli : Cli) where
    -- The mint: the argument, or what the launch account says.
    unfoldable pub memecoin_mint : Pubkey → Option Text → CliResult Pubkey
    unfolding parse_pubkey get_program_account decode_launch
    memecoin_mint launch_pda (some value) = parse_pubkey host value
    memecoin_mint launch_pda none = do
      raw ← get_program_account host cli launch_pda
      launch ←
          decode_launch host.sha256 host.borsh host.borsh_reason (host.show_pubkey launch_pda) raw
      done launch.pump_mint

    unfoldable pub prepare : Args → CliResult (RawInstruction × (Text → Report))
    unfolding payload memecoin_mint parse_pubkey kol_name_bytes get_program_account decode_king
        associated_token_address Pdas.config Pdas.pet Pdas.launch Pdas.king Pdas.nft_vault
    prepare args = do
      kol_owner ← parse_pubkey host args.kol_owner
      name_bytes ← kol_name_bytes args.kol_name
      let config_pda = (Pdas.config host.find_program_address cli.program_id).0
      let pet_pda = (Pdas.pet host.find_program_address cli.program_id kol_owner name_bytes).0
      let launch_pda = (Pdas.launch host.find_program_address cli.program_id pet_pda).0
      let king_pda = (Pdas.king host.find_program_address cli.program_id pet_pda).0
      let vault_pda = (Pdas.nft_vault host.find_program_address cli.program_id king_pda).0
      token_program ← or_error (host.pubkey_from_str spl_token_program_id) invalid_pubkey
      ata_program ← or_error (host.pubkey_from_str spl_ata_program_id) invalid_pubkey
      mint ← memecoin_mint launch_pda args.memecoin_mint
      king_raw ← get_program_account host cli king_pda
      king ←
          decode_king host.sha256 host.borsh host.borsh_reason (host.show_pubkey king_pda) king_raw
      let challenger = cli.payer.pubkey
      let challenger_ata = associated_token_address host challenger mint token_program ata_program
      let previous_champion_ata =
          if king.take_overs == 0
          then vault_pda
          else associated_token_address host king.current_champion king.nft_mint token_program
              ata_program
      let challenger_nft_ata =
          associated_token_address host challenger king.nft_mint token_program ata_program
      done (
        record {
          program_id = cli.program_id;
          accounts =
              writable challenger true
              ∷ readonly config_pda false
              ∷ readonly pet_pda false
              ∷ writable king_pda false
              ∷ readonly king.nft_mint false
              ∷ writable vault_pda false
              ∷ writable previous_champion_ata false
              ∷ writable challenger_nft_ata false
              ∷ readonly mint false
              ∷ readonly challenger_ata false
              ∷ readonly token_program false
              ∷ readonly ata_program false
              ∷ readonly system_program_id false
              ∷ [];
          payload = payload;
        },
        λ sig. record {
          title = ascii "cols take-throne";
          rows =
              (ascii "signature", sig)
              ∷ (ascii "challenger", host.show_pubkey challenger)
              ∷ (ascii "pet_pda", host.show_pubkey pet_pda)
              ∷ (ascii "king_pda", host.show_pubkey king_pda)
              ∷ (ascii "memecoin_mint", host.show_pubkey mint)
              ∷ (ascii "challenger_ata", host.show_pubkey challenger_ata)
              ∷ [];
        },
      )

    unfoldable pub run : Args → CliResult Report
    unfolding prepare send
    run args = do
      (instruction, report) ← prepare args
      sig ← send host cli (instruction ∷ [])
      done (report sig)
