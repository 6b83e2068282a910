-- ===== src/Instructions/SettleThrone.antt =====
-- programs/cols/src/instructions/settle_throne.rs
pub mod Facts
use kolz_protocol.Base.{true, not, [], ◌∷◌, leb, ◌==◌}
use kolz_protocol.Bytes.{Pubkey, bytes_eq}
use kolz_protocol.Constants.{config_seed, king_seed, pet_seed}
use kolz_protocol.Errors.{
  Result, ok, ◌>>=◌, ◌>>◌, require, ok_or, call_failed, oracle_mismatch, already_settled,
  settlement_not_ready, ata_owner_mismatch, pet_mismatch, mint_mismatch,
}
use kolz_protocol.Events.{Event, throne_settled}
use kolz_protocol.Runtime.{Runtime}
use kolz_protocol.State.King.{KingOfHill}
use kolz_protocol.Chain.{
  Chain, Tx, king_account, put, load_config, load_pet, load_king, load_token, check_signer,
  check_mut, check_program, check_mint, check_seeds, signers_with,
}

-- The keys that the instruction is given, in the order of the declaration.
pub record Accounts : Type 0 where
  pub oracle : Pubkey
  pub config : Pubkey
  pub pet : Pubkey
  pub king : Pubkey
  pub champion_nft_ata : Pubkey
  pub nft_mint : Pubkey
  pub token_program : Pubkey

module _ {Ext : Type 0} (rt : Runtime Ext) (tx : Tx) (a : Accounts) where
  -- `#[derive(Accounts)]` of `SettleThrone`; the handler reads the throne.
  unfoldable pub try_accounts : Chain Ext → Result KingOfHill
  try_accounts chain = do
    check_signer tx a.oracle
    config ← load_config chain a.config
    pet ← load_pet chain a.pet
    king ← load_king chain a.king
    champion_nft_ata ← load_token rt chain.ext a.champion_nft_ata
    check_mint rt chain.ext a.nft_mint
    check_program rt.token_program_id a.token_program
    check_mut tx a.oracle
    check_seeds rt (config_seed ∷ []) config.bump a.config
    require (bytes_eq config.oracle a.oracle) oracle_mismatch
    check_seeds rt (pet_seed ∷ pet.owner ∷ pet.kol_name ∷ []) pet.bump a.pet
    check_seeds rt (king_seed ∷ a.pet ∷ []) king.bump a.king
    check_mut tx a.king
    require (bytes_eq king.pet a.pet) pet_mismatch
    check_mut tx a.champion_nft_ata
    require (bytes_eq champion_nft_ata.owner king.current_champion) ata_owner_mismatch
    require (bytes_eq champion_nft_ata.mint king.nft_mint) mint_mismatch
    ok king

  unfoldable pub handler : KingOfHill → Chain Ext → Result (Chain Ext × Event)
  handler king chain = do
    require (not king.settled) already_settled
    require (not (king.settles_at_slot == 0)) settlement_not_ready
    slot ← ok_or (rt.clock_slot chain.ext) call_failed
    require (leb king.settles_at_slot slot) settlement_not_ready
    signers ← signers_with rt tx (king_seed ∷ a.pet ∷ []) king.bump
    revoked ← ok_or (rt.revoke a.champion_nft_ata a.king signers chain.ext) call_failed
    ok (
      put a.king (king_account (record king { settled = true })) (record chain { ext = revoked }),
      throne_settled (record {
        pet = a.pet;
        final_champion = king.current_champion;
        take_overs = king.take_overs;
        slot = slot;
      }),
    )

  unfoldable pub settle_throne : Chain Ext → Result (Chain Ext × Event)
  unfolding try_accounts handler
  settle_throne chain = do king ← try_accounts chain; handler king chain
