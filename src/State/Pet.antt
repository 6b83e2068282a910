-- ===== src/State/Pet.antt =====
-- programs/cols/src/state/pet.rs
use kolz_protocol.Base.{ℕ, ◌+◌, replicate}
use kolz_protocol.Bytes.{Bytes, Pubkey, default_pubkey}
use kolz_protocol.Constants.{kol_name_len}

pub record Pet : Type 0 where
  pub owner : Pubkey
  pub kol_name : Bytes
  pub bonded_at : ℕ
  pub bump : ℕ
  pub reserved : Bytes

abbrev pub default : Pet
default = record {
  owner = default_pubkey;
  kol_name = replicate kol_name_len 0;
  bonded_at = 0;
  bump = 0;
  reserved = replicate 7 0;
}

abbrev pub size : ℕ
size = 8 + 32 + kol_name_len + 8 + 1 + 7

abbrev pub initialize : Pet → Pubkey → Bytes → ℕ → ℕ → Pet
initialize self owner kol_name bonded_at bump = record self {
  owner = owner;
  kol_name = kol_name;
  bonded_at = bonded_at;
  bump = bump;
  reserved = replicate 7 0;
}
