-- ===== src/State/King.antt =====
-- programs/cols/src/state/king.rs
use kolz_protocol.Base.{ℕ, ◌+◌, Bool, false, ◌&&◌, ◌==◌, replicate}
use kolz_protocol.Bytes.{Bytes, Pubkey, default_pubkey, bytes_eq}
use kolz_protocol.Constants.{system_program_id}

pub record KingOfHill : Type 0 where
  pub pet : Pubkey
  pub nft_mint : Pubkey
  pub nft_escrow_vault : Pubkey
  pub current_champion : Pubkey
  pub champion_balance : ℕ
  pub last_captured_slot : ℕ
  pub take_overs : ℕ
  pub bump : ℕ
  pub nft_escrow_vault_bump : ℕ
  pub settles_at_slot : ℕ
  pub settled : Bool
  pub reserved : Bytes

abbrev pub default : KingOfHill
default = record {
  pet = default_pubkey;
  nft_mint = default_pubkey;
  nft_escrow_vault = default_pubkey;
  current_champion = default_pubkey;
  champion_balance = 0;
  last_captured_slot = 0;
  take_overs = 0;
  bump = 0;
  nft_escrow_vault_bump = 0;
  settles_at_slot = 0;
  settled = false;
  reserved = replicate 5 0;
}

abbrev pub size : ℕ
size = 8 + 128 + 8 + 8 + 4 + 1 + 1 + 8 + 1 + 5

abbrev pub initialize : KingOfHill → Pubkey → Pubkey → Pubkey → ℕ → ℕ → KingOfHill
initialize self pet nft_mint nft_escrow_vault bump nft_escrow_vault_bump = record self {
  pet = pet;
  nft_mint = nft_mint;
  nft_escrow_vault = nft_escrow_vault;
  current_champion = system_program_id;
  champion_balance = 0;
  last_captured_slot = 0;
  take_overs = 0;
  bump = bump;
  nft_escrow_vault_bump = nft_escrow_vault_bump;
  settles_at_slot = 0;
  settled = false;
  reserved = replicate 5 0;
}

unfoldable pub is_unclaimed : KingOfHill → Bool
is_unclaimed self = bytes_eq self.current_champion system_program_id && self.take_overs == 0
