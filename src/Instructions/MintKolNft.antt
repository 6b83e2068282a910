-- ===== src/Instructions/MintKolNft.antt =====
-- programs/cols/src/instructions/mint_kol_nft.rs
pub mod Facts
use kolz_protocol.Base.{ℕ, not, [], ◌∷◌}
use kolz_protocol.Bytes.{Bytes, Pubkey, bytes_eq, default_pubkey}
use kolz_protocol.Constants.{
  config_seed, king_escrow_seed, king_seed, launch_seed, pet_seed, system_program_id, nft_decimals,
  nft_supply,
}
use kolz_protocol.Errors.{
  Result, ok, ◌>>=◌, ◌>>◌, require, ok_or, call_failed, oracle_mismatch, pet_mismatch,
  bonding_curve_not_initialized,
}
use kolz_protocol.Events.{Event, king_minted}
use kolz_protocol.Runtime.{Runtime}
use kolz_protocol.State.King
use kolz_protocol.State.Launch.{Launch}
use kolz_protocol.State.King.{KingOfHill}
use kolz_protocol.Chain.{
  Chain, Tx, king_account, put, load_config, load_pet, load_launch, check_signer, check_mut,
  check_program, check_sysvar, check_seeds, find_bump, init_account, signers_with,
}
use kolz_protocol.Utils.{check_metadata_lengths}

-- The keys that the instruction is given, in the order of the declaration.
pub record Accounts : Type 0 where
  pub oracle : Pubkey
  pub config : Pubkey
  pub pet : Pubkey
  pub launch : Pubkey
  pub king : Pubkey
  pub nft_mint : Pubkey
  pub escrow_owner : Pubkey
  pub escrow_vault : Pubkey
  pub metadata : Pubkey
  pub token_program : Pubkey
  pub associated_token_program : Pubkey
  pub token_metadata_program : Pubkey
  pub system_program : Pubkey
  pub rent : Pubkey

-- What the handler reads: the launch, the two bumps, and the state of the other programs once the
-- throne, the mint and the escrow are created.
pub record Loaded (Ext : Type 0) : Type 0 where
  pub launch : Launch
  pub king_bump : ℕ
  pub escrow_bump : ℕ
  pub ext : Ext

module _ {Ext : Type 0} (rt : Runtime Ext) (tx : Tx) (a : Accounts) where
  -- `#[derive(Accounts)]` of `MintKolNft`.
  unfoldable pub try_accounts : Chain Ext → Result (Loaded Ext)
  try_accounts chain = do
    check_signer tx a.oracle
    config ← load_config chain a.config
    pet ← load_pet chain a.pet
    launch ← load_launch chain a.launch
    check_program rt.token_program_id a.token_program
    check_program rt.associated_token_program_id a.associated_token_program
    check_program rt.token_metadata_program_id a.token_metadata_program
    check_program system_program_id a.system_program
    check_sysvar rt.rent_id a.rent
    created ← init_account rt a.oracle (king_seed ∷ a.pet ∷ []) a.king King.size chain
    check_mut tx a.king
    minted ←
        ok_or (rt.create_mint a.oracle a.nft_mint nft_decimals a.king a.king tx.signers created.1)
          call_failed
    check_mut tx a.nft_mint
    escrowed ←
        ok_or
          (rt.create_associated_token_account a.oracle a.escrow_vault a.nft_mint a.escrow_owner
            minted)
          call_failed
    check_mut tx a.escrow_vault
    check_mut tx a.oracle
    check_seeds rt (config_seed ∷ []) config.bump a.config
    require (bytes_eq config.oracle a.oracle) oracle_mismatch
    check_seeds rt (pet_seed ∷ pet.owner ∷ pet.kol_name ∷ []) pet.bump a.pet
    check_seeds rt (launch_seed ∷ a.pet ∷ []) launch.bump a.launch
    require (bytes_eq launch.pet a.pet) pet_mismatch
    escrow_bump ← find_bump rt (king_escrow_seed ∷ a.king ∷ []) a.escrow_owner
    check_mut tx a.metadata
    ok (record {
      launch = launch;
      king_bump = created.0;
      escrow_bump = escrow_bump;
      ext = escrowed;
    })

  module _ (name symbol uri : Bytes) where
    unfoldable pub handler : Loaded Ext → Chain Ext → Result (Chain Ext × Event)
    handler l chain = do
      check_metadata_lengths name symbol uri
      require (not (bytes_eq l.launch.pump_mint default_pubkey)) bonding_curve_not_initialized
      signers ← signers_with rt tx (king_seed ∷ a.pet ∷ []) l.king_bump
      minted ←
          ok_or (rt.mint_to a.nft_mint a.escrow_vault a.king nft_supply signers l.ext) call_failed
      named ←
          ok_or
            (rt.create_metadata a.metadata a.nft_mint a.king a.oracle name symbol uri signers
              minted)
            call_failed
      slot ← ok_or (rt.clock_slot named) call_failed
      ok (
        put a.king
            (king_account (
              King.initialize King.default a.pet a.nft_mint a.escrow_vault l.king_bump
                l.escrow_bump))
            (record chain { ext = named }),
        king_minted (record {
          pet = a.pet;
          nft_mint = a.nft_mint;
          escrow_vault = a.escrow_vault;
          slot = slot;
        }),
      )

    unfoldable pub mint_kol_nft : Chain Ext → Result (Chain Ext × Event)
    unfolding try_accounts handler
    mint_kol_nft chain = do loaded ← try_accounts chain; handler loaded chain
