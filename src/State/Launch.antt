-- ===== src/State/Launch.antt =====
-- programs/cols/src/state/launch.rs
use kolz_protocol.Base.{ℕ, ◌+◌, Bool, false, replicate}
use kolz_protocol.Bytes.{Bytes, Pubkey, default_pubkey}
use kolz_protocol.Constants.{u64_bound}
use kolz_protocol.Utils.{saturating_add}

pub record Launch : Type 0 where
  pub pet : Pubkey
  pub pump_mint : Pubkey
  pub bonded_slot : ℕ
  pub real_sol_reserve : ℕ
  pub real_token_reserve : ℕ
  pub creator_fees_lamports : ℕ
  pub total_volume_lamports : ℕ
  pub graduated : Bool
  pub bump : ℕ
  pub reserved : Bytes

abbrev pub default : Launch
default = record {
  pet = default_pubkey;
  pump_mint = default_pubkey;
  bonded_slot = 0;
  real_sol_reserve = 0;
  real_token_reserve = 0;
  creator_fees_lamports = 0;
  total_volume_lamports = 0;
  graduated = false;
  bump = 0;
  reserved = replicate 6 0;
}

abbrev pub size : ℕ
size = 8 + 32 + 32 + 48 + 1 + 1 + 6

abbrev pub initialize : Launch → Pubkey → Pubkey → ℕ → ℕ → Launch
initialize self pet pump_mint bonded_slot bump = record self {
  pet = pet;
  pump_mint = pump_mint;
  bonded_slot = bonded_slot;
  real_sol_reserve = 0;
  real_token_reserve = 0;
  creator_fees_lamports = 0;
  total_volume_lamports = 0;
  graduated = false;
  bump = bump;
  reserved = replicate 6 0;
}

unfoldable pub record_volume : Launch → ℕ → Launch
record_volume self lamports = record self {
  total_volume_lamports = saturating_add u64_bound self.total_volume_lamports lamports;
}

unfoldable pub record_creator_fees : Launch → ℕ → Launch
record_creator_fees self lamports = record self {
  creator_fees_lamports = saturating_add u64_bound self.creator_fees_lamports lamports;
}

unfoldable pub snapshot_reserves : Launch → ℕ → ℕ → Launch
snapshot_reserves self sol_reserve token_reserve = record self {
  real_sol_reserve = sol_reserve;
  real_token_reserve = token_reserve;
}
