-- ===== src/State/Config.antt =====
-- programs/cols/src/state/config.rs
use kolz_protocol.Base.{ℕ, ◌+◌, replicate}
use kolz_protocol.Bytes.{Bytes, Pubkey, default_pubkey}

pub record Config : Type 0 where
  pub admin : Pubkey
  pub oracle : Pubkey
  pub fee_basis_points : ℕ
  pub bump : ℕ
  pub reserved : Bytes

abbrev pub default : Config
default = record {
  admin = default_pubkey;
  oracle = default_pubkey;
  fee_basis_points = 0;
  bump = 0;
  reserved = replicate 3 0;
}

abbrev pub size : ℕ
size = 8 + 32 + 32 + 4 + 1 + 3

abbrev pub initialize : Config → Pubkey → Pubkey → ℕ → ℕ → Config
initialize self admin oracle fee_basis_points bump = record self {
  admin = admin;
  oracle = oracle;
  fee_basis_points = fee_basis_points;
  bump = bump;
  reserved = replicate 3 0;
}
