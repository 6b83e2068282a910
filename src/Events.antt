-- ===== src/Events.antt =====
-- programs/cols/src/events.rs: what the handlers emit, one constructor for each event with the
-- record of its fields.
use kolz_protocol.Base.{ℕ, Bool}
use kolz_protocol.Bytes.{Bytes, Pubkey}

pub record ConfigInitialized : Type 0 where
  pub admin : Pubkey
  pub oracle : Pubkey
  pub fee_basis_points : ℕ
  pub slot : ℕ

pub record LaunchBound : Type 0 where
  pub pet : Pubkey
  pub kol_owner : Pubkey
  pub pump_mint : Pubkey
  pub bonded_slot : ℕ

pub record KingMinted : Type 0 where
  pub pet : Pubkey
  pub nft_mint : Pubkey
  pub escrow_vault : Pubkey
  pub slot : ℕ

pub record ThroneCaptured : Type 0 where
  pub pet : Pubkey
  pub new_champion : Pubkey
  pub previous_champion : Pubkey
  pub champion_balance : ℕ
  pub take_overs : ℕ
  pub slot : ℕ
  pub first_capture : Bool
  pub settles_at_slot : ℕ

pub record ThroneSettled : Type 0 where
  pub pet : Pubkey
  pub final_champion : Pubkey
  pub take_overs : ℕ
  pub slot : ℕ

pub record DistributionCommitted : Type 0 where
  pub epoch : ℕ
  pub root : Bytes
  pub pool_lamports : ℕ
  pub slot : ℕ

pub record HolderClaimed : Type 0 where
  pub holder : Pubkey
  pub epoch : ℕ
  pub amount : ℕ
  pub slot : ℕ

pub data Event : Type 0 where
  config_initialized : ConfigInitialized → Event
  launch_bound : LaunchBound → Event
  king_minted : KingMinted → Event
  throne_captured : ThroneCaptured → Event
  throne_settled : ThroneSettled → Event
  distribution_committed : DistributionCommitted → Event
  holder_claimed : HolderClaimed → Event
