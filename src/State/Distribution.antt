-- ===== src/State/Distribution.antt =====
-- programs/cols/src/state/distribution.rs
use kolz_protocol.Base.{ℕ, ◌+◌, replicate}
use kolz_protocol.Bytes.{Bytes}

pub record Distribution : Type 0 where
  pub epoch : ℕ
  pub root : Bytes
  pub pool_lamports : ℕ
  pub committed_at : ℕ
  pub bump : ℕ
  pub reserved : Bytes

abbrev pub default : Distribution
default = record {
  epoch = 0;
  root = replicate 32 0;
  pool_lamports = 0;
  committed_at = 0;
  bump = 0;
  reserved = replicate 7 0;
}

abbrev pub size : ℕ
size = 8 + 8 + 32 + 8 + 8 + 1 + 7

abbrev pub initialize : Distribution → ℕ → Bytes → ℕ → ℕ → ℕ → Distribution
initialize self epoch root pool_lamports committed_at bump = record self {
  epoch = epoch;
  root = root;
  pool_lamports = pool_lamports;
  committed_at = committed_at;
  bump = bump;
  reserved = replicate 7 0;
}
