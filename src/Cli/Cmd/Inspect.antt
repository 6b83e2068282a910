-- ===== src/Cli/Cmd/Inspect.antt =====
-- cli/src/cmd/inspect.rs
use kolz_protocol.Base.{ℕ, Bool, true, false, [], ◌∷◌}
use kolz_protocol.Constants.{ascii}
use kolz_protocol.Cli.Text.{Text, show_number}
use kolz_protocol.Cli.Error.{CliResult, done, ◌>>=◌}
use kolz_protocol.Cli.Output.{Report, fmt_hex32, fmt_slot, fmt_lamports}
use kolz_protocol.Cli.Pdas
use kolz_protocol.Cli.BorshCodec.{
  decode_king, decode_launch, decode_config, decode_pet, decode_distribution, decode_holder_claim,
  kol_name_to_string,
}
use kolz_protocol.Cli.Host.{Host}
use kolz_protocol.Cli.Rpc.{Cli, parse_pubkey, get_program_account}
use kolz_protocol.Cli.Cmd.Shared.{kol_name_bytes}

pub data Target : Type 0 where
  config : Target
  pet : Text → Text → Target
  launch : Text → Target
  king : Text → Target
  distribution : ℕ → Target
  holder_claim : Text → ℕ → Target

abbrev pub show_bool : Bool → Text
show_bool true = ascii "true"
show_bool false = ascii "false"

module _ (host : Host) (cli : Cli) where
  unfoldable pub inspect_config : CliResult Report
  unfolding Pdas.config get_program_account decode_config
  inspect_config = do
    let pda = (Pdas.config host.find_program_address cli.program_id).0
    raw ← get_program_account host cli pda
    found ← decode_config host.sha256 host.borsh host.borsh_reason (host.show_pubkey pda) raw
    done (record {
      title = ascii "Config";
      rows =
          (ascii "pda", host.show_pubkey pda)
          ∷ (ascii "admin", host.show_pubkey found.admin)
          ∷ (ascii "oracle", host.show_pubkey found.oracle)
          ∷ (ascii "fee_basis_points", show_number found.fee_basis_points)
          ∷ (ascii "bump", show_number found.bump)
          ∷ [];
    })

  unfoldable pub inspect_pet : Text → Text → CliResult Report
  unfolding Pdas.pet parse_pubkey kol_name_bytes kol_name_to_string fmt_slot get_program_account
      decode_pet
  inspect_pet kol_owner kol_name = do
    owner ← parse_pubkey host kol_owner
    name_bytes ← kol_name_bytes kol_name
    let pda = (Pdas.pet host.find_program_address cli.program_id owner name_bytes).0
    raw ← get_program_account host cli pda
    found ← decode_pet host.sha256 host.borsh host.borsh_reason (host.show_pubkey pda) raw
    done (record {
      title = ascii "Pet";
      rows =
          (ascii "pda", host.show_pubkey pda)
          ∷ (ascii "owner", host.show_pubkey found.owner)
          ∷ (ascii "kol_name", kol_name_to_string host.lossy found.kol_name)
          ∷ (ascii "bonded_at_slot", fmt_slot found.bonded_at)
          ∷ (ascii "bump", show_number found.bump)
          ∷ [];
    })

  unfoldable pub inspect_launch : Text → CliResult Report
  unfolding Pdas.launch parse_pubkey fmt_slot fmt_lamports get_program_account decode_launch
  inspect_launch pet_key = do
    pet_pubkey ← parse_pubkey host pet_key
    let pda = (Pdas.launch host.find_program_address cli.program_id pet_pubkey).0
    raw ← get_program_account host cli pda
    found ← decode_launch host.sha256 host.borsh host.borsh_reason (host.show_pubkey pda) raw
    done (record {
      title = ascii "Launch";
      rows =
          (ascii "pda", host.show_pubkey pda)
          ∷ (ascii "pet", host.show_pubkey found.pet)
          ∷ (ascii "pump_mint", host.show_pubkey found.pump_mint)
          ∷ (ascii "bonded_slot", fmt_slot found.bonded_slot)
          ∷ (ascii "real_sol_reserve", fmt_lamports host.fmt_sol found.real_sol_reserve)
          ∷ (ascii "real_token_reserve", show_number found.real_token_reserve)
          ∷ (ascii "creator_fees_lamports", fmt_lamports host.fmt_sol found.creator_fees_lamports)
          ∷ (ascii "total_volume_lamports", fmt_lamports host.fmt_sol found.total_volume_lamports)
          ∷ (ascii "graduated", show_bool found.graduated)
          ∷ (ascii "bump", show_number found.bump)
          ∷ [];
    })

  unfoldable pub inspect_king : Text → CliResult Report
  unfolding Pdas.king parse_pubkey fmt_slot get_program_account decode_king
  inspect_king pet_key = do
    pet_pubkey ← parse_pubkey host pet_key
    let pda = (Pdas.king host.find_program_address cli.program_id pet_pubkey).0
    raw ← get_program_account host cli pda
    found ← decode_king host.sha256 host.borsh host.borsh_reason (host.show_pubkey pda) raw
    done (record {
      title = ascii "KingOfHill";
      rows =
          (ascii "pda", host.show_pubkey pda)
          ∷ (ascii "pet", host.show_pubkey found.pet)
          ∷ (ascii "nft_mint", host.show_pubkey found.nft_mint)
          ∷ (ascii "nft_escrow_vault", host.show_pubkey found.nft_escrow_vault)
          ∷ (ascii "current_champion", host.show_pubkey found.current_champion)
          ∷ (ascii "champion_balance", show_number found.champion_balance)
          ∷ (ascii "last_captured_slot", fmt_slot found.last_captured_slot)
          ∷ (ascii "take_overs", show_number found.take_overs)
          ∷ (ascii "settles_at_slot", fmt_slot found.settles_at_slot)
          ∷ (ascii "settled", show_bool found.settled)
          ∷ (ascii "bump", show_number found.bump)
          ∷ (ascii "nft_escrow_vault_bump", show_number found.nft_escrow_vault_bump)
          ∷ [];
    })

  unfoldable pub inspect_distribution : ℕ → CliResult Report
  unfolding Pdas.distribution fmt_slot fmt_lamports fmt_hex32 get_program_account
      decode_distribution
  inspect_distribution epoch = do
    let pda = (Pdas.distribution host.find_program_address cli.program_id epoch).0
    raw ← get_program_account host cli pda
    found ← decode_distribution host.sha256 host.borsh host.borsh_reason (host.show_pubkey pda) raw
    done (record {
      title = ascii "Distribution";
      rows =
          (ascii "pda", host.show_pubkey pda)
          ∷ (ascii "epoch", show_number found.epoch)
          ∷ (ascii "root", fmt_hex32 found.root)
          ∷ (ascii "pool_lamports", fmt_lamports host.fmt_sol found.pool_lamports)
          ∷ (ascii "committed_at_slot", fmt_slot found.committed_at)
          ∷ (ascii "bump", show_number found.bump)
          ∷ [];
    })

  unfoldable pub inspect_holder_claim : Text → ℕ → CliResult Report
  unfolding Pdas.holder_claim parse_pubkey fmt_slot fmt_lamports get_program_account
      decode_holder_claim
  inspect_holder_claim holder epoch = do
    holder_key ← parse_pubkey host holder
    let pda = (Pdas.holder_claim host.find_program_address cli.program_id holder_key epoch).0
    raw ← get_program_account host cli pda
    found ← decode_holder_claim host.sha256 host.borsh host.borsh_reason (host.show_pubkey pda) raw
    done (record {
      title = ascii "HolderClaim";
      rows =
          (ascii "pda", host.show_pubkey pda)
          ∷ (ascii "holder", host.show_pubkey found.holder)
          ∷ (ascii "epoch", show_number found.epoch)
          ∷ (ascii "amount_claimed", fmt_lamports host.fmt_sol found.amount_claimed)
          ∷ (ascii "claimed_at_slot", fmt_slot found.claimed_at_slot)
          ∷ (ascii "bump", show_number found.bump)
          ∷ [];
    })

  unfoldable pub run : Target → CliResult Report
  unfolding inspect_config inspect_pet inspect_launch inspect_king inspect_distribution
      inspect_holder_claim
  run config = inspect_config
  run (pet kol_owner kol_name) = inspect_pet kol_owner kol_name
  run (launch pet_key) = inspect_launch pet_key
  run (king pet_key) = inspect_king pet_key
  run (distribution epoch) = inspect_distribution epoch
  run (holder_claim holder epoch) = inspect_holder_claim holder epoch
