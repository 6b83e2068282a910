-- ===== src/Cli/Cmd/MintNft.antt =====
-- cli/src/cmd/mint_nft.rs
use kolz_protocol.Base.{true, false, Option, none, some, [], ◌∷◌, ◌++◌, ltb, length}
use kolz_protocol.Bytes.{Bytes}
use kolz_protocol.Constants.{ascii, system_program_id}
use kolz_protocol.Cli.Text.{Text}
use kolz_protocol.Cli.Error.{
  CliResult, done, reject_if, ◌>>=◌, ◌>>◌, invalid_arg, invalid_pubkey, io, json,
}
use kolz_protocol.Cli.Discriminator
use kolz_protocol.Cli.Output.{Report}
use kolz_protocol.Cli.Pdas
use kolz_protocol.Cli.Host.{Host, RawInstruction, writable, readonly}
use kolz_protocol.Cli.Rpc.{Cli, parse_pubkey, send_with_signers, or_error}
use kolz_protocol.Cli.Cmd.Shared.{spl_token_program_id, spl_ata_program_id, kol_name_bytes}

abbrev pub metaplex_metadata_program_id : Text
metaplex_metadata_program_id = ascii "metaqbxxUerdq28cj1RbAWkYQm3ybzjb6a8bt518x1s"

pub record Args : Type 0 where
  pub kol_owner : Text
  pub kol_name : Text
  pub name : Text
  pub symbol : Text
  pub uri : Text
  pub mint_out : Option Text

-- The limits that `run` checks first.
unfoldable pub check_args : Args → CliResult (Unit {0})
check_args args = do
  reject_if (ltb 32 (length args.name))
      (invalid_arg (ascii "name") (ascii "name exceeds 32 byte Metaplex limit"))
  reject_if (ltb 10 (length args.symbol))
      (invalid_arg (ascii "symbol") (ascii "symbol exceeds 10 byte Metaplex limit"))
  reject_if (ltb 200 (length args.uri))
      (invalid_arg (ascii "uri") (ascii "uri exceeds 200 byte Metaplex limit"))
  done tt

module _ (host : Host) where
  -- The serialized `MintPayload`.
  unfoldable pub payload : Text → Text → Text → Bytes
  unfolding Discriminator.instruction
  payload name symbol uri =
      (host.borsh.array 8).put (Discriminator.instruction host.sha256 (ascii "mint_kol_nft"))
      ++ (host.borsh.string.put name ++ (host.borsh.string.put symbol ++ host.borsh.string.put uri))

  -- `--mint-out`: the new key pair is written to a file.
  unfoldable pub save_mint : Option Text → CliResult (Unit {0})
  save_mint none = done tt
  save_mint (some path) = do
    text ← or_error (host.bytes_to_json host.new_keypair.bytes) json
    or_error (host.write_file path text) io

  module _ (cli : Cli) (args : Args) where
    unfoldable pub prepare : CliResult (RawInstruction × (Text → Report))
    unfolding check_args payload save_mint parse_pubkey kol_name_bytes Pdas.config Pdas.pet
        Pdas.king Pdas.nft_vault
    prepare = do
      check_args args
      kol_owner ← parse_pubkey host args.kol_owner
      name_bytes ← kol_name_bytes args.kol_name
      let config_pda = (Pdas.config host.find_program_address cli.program_id).0
      let pet_pda = (Pdas.pet host.find_program_address cli.program_id kol_owner name_bytes).0
      let king_pda = (Pdas.king host.find_program_address cli.program_id pet_pda).0
      let vault_pda = (Pdas.nft_vault host.find_program_address cli.program_id king_pda).0
      let nft_mint = host.new_keypair.pubkey
      save_mint args.mint_out
      token_program ← or_error (host.pubkey_from_str spl_token_program_id) invalid_pubkey
      ata_program ← or_error (host.pubkey_from_str spl_ata_program_id) invalid_pubkey
      metadata_program ← or_error (host.pubkey_from_str metaplex_metadata_program_id) invalid_pubkey
      let metadata_pda =
          (host.find_program_address (ascii "metadata" ∷ metadata_program ∷ nft_mint ∷ [])
            metadata_program).0
      let oracle = cli.payer.pubkey
      done (
        record {
          program_id = cli.program_id;
          accounts =
              writable oracle true
              ∷ readonly config_pda false
              ∷ readonly pet_pda false
              ∷ writable king_pda false
              ∷ writable nft_mint true
              ∷ writable vault_pda false
              ∷ writable metadata_pda false
              ∷ readonly metadata_program false
              ∷ readonly token_program false
              ∷ readonly ata_program false
              ∷ readonly system_program_id false
              ∷ readonly host.rent_id false
              ∷ [];
          payload = payload args.name args.symbol args.uri;
        },
        λ sig. record {
          title = ascii "cols mint-nft";
          rows =
              (ascii "signature", sig)
              ∷ (ascii "pet_pda", host.show_pubkey pet_pda)
              ∷ (ascii "king_pda", host.show_pubkey king_pda)
              ∷ (ascii "nft_mint", host.show_pubkey nft_mint)
              ∷ (ascii "nft_escrow_vault", host.show_pubkey vault_pda)
              ∷ (ascii "name", args.name)
              ∷ (ascii "symbol", args.symbol)
              ∷ (ascii "uri", args.uri)
              ∷ [];
        },
      )

    unfoldable pub run : CliResult Report
    unfolding prepare send_with_signers
    run = do
      (instruction, report) ← prepare
      sig ← send_with_signers host cli (instruction ∷ []) (host.new_keypair ∷ [])
      done (report sig)
