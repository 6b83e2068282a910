-- ===== src/State/HolderClaim.antt =====
-- programs/cols/src/state/holder_claim.rs
use kolz_protocol.Base.{ℕ, ◌+◌, replicate}
use kolz_protocol.Bytes.{Bytes, Pubkey, default_pubkey}

pub record HolderClaim : Type 0 where
  pub holder : Pubkey
  pub epoch : ℕ
  pub amount_claimed : ℕ
  pub claimed_at_slot : ℕ
  pub bump : ℕ
  pub reserved : Bytes

abbrev pub default : HolderClaim
default = record {
  holder = default_pubkey;
  epoch = 0;
  amount_claimed = 0;
  claimed_at_slot = 0;
  bump = 0;
  reserved = replicate 7 0;
}

abbrev pub size : ℕ
size = 8 + 32 + 8 + 8 + 8 + 1 + 7

abbrev pub initialize : HolderClaim → Pubkey → ℕ → ℕ → ℕ → ℕ → HolderClaim
initialize self holder epoch amount slot bump = record self {
  holder = holder;
  epoch = epoch;
  amount_claimed = amount;
  claimed_at_slot = slot;
  bump = bump;
  reserved = replicate 7 0;
}
