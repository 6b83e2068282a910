-- ===== src/Instructions/TakeThrone.antt =====
-- programs/cols/src/instructions/take_throne.rs
pub mod Facts
use kolz_protocol.Base.{
  ℕ, Bool, true, not, ◌&&◌, Option, none, some, List, [], ◌∷◌, ltb, leb, ◌==◌, if◌then◌else◌,
}
use kolz_protocol.Bytes.{Bytes, Pubkey, bytes_eq}
use kolz_protocol.Constants.{
  config_seed, king_escrow_seed, king_seed, launch_seed, pet_seed, system_program_id,
  throne_settlement_slots, u64_bound, u32_bound,
}
use kolz_protocol.Errors.{
  Result, ok, err, ◌>>=◌, ◌>>◌, require, ok_or, cols, call_failed, settlement_period_ended,
  not_top_holder, invalid_amount, missing_prev_champion_ata, ata_owner_mismatch, pet_mismatch,
  mint_mismatch, settlement_not_ready,
}
use kolz_protocol.Events.{Event, throne_captured}
use kolz_protocol.Runtime.{Runtime, TokenAccount}
use kolz_protocol.State.Config.{Config}
use kolz_protocol.State.Pet.{Pet}
use kolz_protocol.State.Launch.{Launch}
use kolz_protocol.State.King.{KingOfHill, is_unclaimed}
use kolz_protocol.Chain.{
  Chain, Tx, king_account, put, load_config, load_pet, load_launch, load_king, load_token,
  check_signer, check_mut, check_program, check_mint, check_seeds, signers_with,
}
use kolz_protocol.Utils.{saturating_add, checked_add}

-- The keys that the instruction is given, in the order of the declaration.
pub record Accounts : Type 0 where
  pub challenger : Pubkey
  pub config : Pubkey
  pub pet : Pubkey
  pub launch : Pubkey
  pub king : Pubkey
  pub pump_mint : Pubkey
  pub challenger_pump_ata : Pubkey
  pub nft_mint : Pubkey
  pub escrow_vault : Pubkey
  pub escrow_owner : Pubkey
  pub challenger_nft_ata : Pubkey
  pub prev_champion_nft_ata : Pubkey
  pub token_program : Pubkey

-- What the handler reads of the loaded accounts.
pub record Loaded : Type 0 where
  pub king : KingOfHill
  pub challenger_pump_ata : TokenAccount
  pub prev_champion_nft_ata : TokenAccount

module _ {Ext : Type 0} (rt : Runtime Ext) (tx : Tx) (a : Accounts) where
  -- `#[derive(Accounts)]` of `TakeThrone`: the types first, then the constraints.
  unfoldable pub try_accounts : Chain Ext → Result Loaded
  try_accounts chain = do
    check_signer tx a.challenger
    config ← load_config chain a.config
    pet ← load_pet chain a.pet
    launch ← load_launch chain a.launch
    king ← load_king chain a.king
    check_mint rt chain.ext a.pump_mint
    challenger_pump_ata ← load_token rt chain.ext a.challenger_pump_ata
    check_mint rt chain.ext a.nft_mint
    escrow_vault ← load_token rt chain.ext a.escrow_vault
    challenger_nft_ata ← load_token rt chain.ext a.challenger_nft_ata
    prev_champion_nft_ata ← load_token rt chain.ext a.prev_champion_nft_ata
    check_program rt.token_program_id a.token_program
    check_mut tx a.challenger
    check_seeds rt (config_seed ∷ []) config.bump a.config
    check_seeds rt (pet_seed ∷ pet.owner ∷ pet.kol_name ∷ []) pet.bump a.pet
    check_seeds rt (launch_seed ∷ a.pet ∷ []) launch.bump a.launch
    require (bytes_eq launch.pet a.pet) pet_mismatch
    check_seeds rt (king_seed ∷ a.pet ∷ []) king.bump a.king
    check_mut tx a.king
    require (bytes_eq king.pet a.pet) pet_mismatch
    require (bytes_eq a.pump_mint launch.pump_mint) mint_mismatch
    require (bytes_eq challenger_pump_ata.owner a.challenger) ata_owner_mismatch
    require (bytes_eq challenger_pump_ata.mint a.pump_mint) mint_mismatch
    require (bytes_eq a.nft_mint king.nft_mint) mint_mismatch
    check_mut tx a.escrow_vault
    require (bytes_eq a.escrow_vault king.nft_escrow_vault) mint_mismatch
    check_seeds rt (king_escrow_seed ∷ a.king ∷ []) king.nft_escrow_vault_bump a.escrow_owner
    check_mut tx a.challenger_nft_ata
    require (bytes_eq challenger_nft_ata.owner a.challenger) ata_owner_mismatch
    require (bytes_eq challenger_nft_ata.mint a.nft_mint) mint_mismatch
    check_mut tx a.prev_champion_nft_ata
    ok (record {
      king = king;
      challenger_pump_ata = challenger_pump_ata;
      prev_champion_nft_ata = prev_champion_nft_ata;
    })

  -- The transfer of the NFT: out of the escrow vault at the first capture, else out of the account
  -- of the champion so far.
  unfoldable pub move_nft : Loaded → Bool → Ext → Result Ext
  move_nft l first_capture ext =
      if first_capture
      then (do
        signers ← signers_with rt tx (king_escrow_seed ∷ a.king ∷ []) l.king.nft_escrow_vault_bump
        ok_or (rt.transfer a.escrow_vault a.challenger_nft_ata a.escrow_owner 1 signers ext)
            call_failed)
      else (do
        require (not (bytes_eq a.prev_champion_nft_ata a.escrow_vault)) missing_prev_champion_ata
        require (bytes_eq l.prev_champion_nft_ata.owner l.king.current_champion) ata_owner_mismatch
        require (leb 1 l.prev_champion_nft_ata.amount) missing_prev_champion_ata
        signers ← signers_with rt tx (king_seed ∷ a.pet ∷ []) l.king.bump
        ok_or (rt.transfer a.prev_champion_nft_ata a.challenger_nft_ata a.king 1 signers ext)
            call_failed)

  -- The deadline: set at the first capture, then left alone.
  unfoldable pub deadline : KingOfHill → Bool → ℕ → Result ℕ
  deadline king first_capture now =
      if first_capture
      then ok_or (checked_add u64_bound now throne_settlement_slots) (cols settlement_not_ready)
      else ok king.settles_at_slot

  -- The throne after the capture.
  unfoldable pub captured : KingOfHill → ℕ → ℕ → ℕ → KingOfHill
  captured king balance now settles_at_slot = record king {
    current_champion = a.challenger;
    champion_balance = balance;
    last_captured_slot = now;
    take_overs = saturating_add u32_bound king.take_overs 1;
    settles_at_slot = settles_at_slot;
  }

  unfoldable pub handler : Loaded → Chain Ext → Result (Chain Ext × Event)
  handler l chain = do
    let king = l.king
    require (not king.settled) settlement_period_ended
    now ← ok_or (rt.clock_slot chain.ext) call_failed
    require (not (not (king.settles_at_slot == 0) && leb king.settles_at_slot now))
        settlement_period_ended
    let challenger_balance = l.challenger_pump_ata.amount
    require (ltb king.champion_balance challenger_balance) not_top_holder
    require (ltb 0 challenger_balance) invalid_amount
    let first_capture = is_unclaimed king
    moved ← move_nft l first_capture chain.ext
    approved ←
        ok_or (rt.approve a.challenger_nft_ata a.king a.challenger 1 tx.signers moved) call_failed
    settles_at_slot ← deadline king first_capture now
    let king' = captured king challenger_balance now settles_at_slot
    require (not (bytes_eq king'.current_champion system_program_id)) ata_owner_mismatch
    ok (
      put a.king (king_account king') (record chain { ext = approved }),
      throne_captured (record {
        pet = a.pet;
        new_champion = king'.current_champion;
        previous_champion = king.current_champion;
        champion_balance = king'.champion_balance;
        take_overs = king'.take_overs;
        slot = now;
        first_capture = first_capture;
        settles_at_slot = king'.settles_at_slot;
      }),
    )

  unfoldable pub take_throne : Chain Ext → Result (Chain Ext × Event)
  unfolding try_accounts handler
  take_throne chain = do loaded ← try_accounts chain; handler loaded chain
