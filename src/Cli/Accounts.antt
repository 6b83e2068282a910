-- ===== src/Cli/Accounts.antt =====
-- The account structs of cli/src/borsh_codec.rs, with the readers that borsh derives for them: the
-- fields in their order.
use kolz_protocol.Base.{ℕ, Bool, Option, some}
use kolz_protocol.Bytes.{Bytes, Pubkey}
use kolz_protocol.Borsh.{Borsh, ◌>>=◌}

pub record Config : Type 0 where
  pub admin : Pubkey
  pub oracle : Pubkey
  pub fee_basis_points : ℕ
  pub bump : ℕ

pub record Pet : Type 0 where
  pub owner : Pubkey
  pub kol_name : Bytes
  pub bonded_at : ℕ
  pub bump : ℕ

pub record Launch : Type 0 where
  pub pet : Pubkey
  pub pump_mint : Pubkey
  pub bonded_slot : ℕ
  pub real_sol_reserve : ℕ
  pub real_token_reserve : ℕ
  pub creator_fees_lamports : ℕ
  pub total_volume_lamports : ℕ
  pub graduated : Bool
  pub bump : ℕ

pub record KingOfHill : Type 0 where
  pub pet : Pubkey
  pub nft_mint : Pubkey
  pub nft_escrow_vault : Pubkey
  pub current_champion : Pubkey
  pub champion_balance : ℕ
  pub last_captured_slot : ℕ
  pub take_overs : ℕ
  pub bump : ℕ
  pub nft_escrow_vault_bump : ℕ
  pub settles_at_slot : ℕ
  pub settled : Bool

pub record Distribution : Type 0 where
  pub epoch : ℕ
  pub root : Bytes
  pub pool_lamports : ℕ
  pub committed_at : ℕ
  pub bump : ℕ

pub record HolderClaim : Type 0 where
  pub holder : Pubkey
  pub epoch : ℕ
  pub amount_claimed : ℕ
  pub claimed_at_slot : ℕ
  pub bump : ℕ

module _ (b : Borsh) where
  unfoldable pub read_config : Bytes → Option (Config × Bytes)
  read_config bytes = do
    (admin, rest1) ← (b.array 32).get bytes
    (oracle, rest2) ← (b.array 32).get rest1
    (fee_basis_points, rest3) ← (b.u32).get rest2
    (bump, rest4) ← (b.u8).get rest3
    some (
      record { admin = admin; oracle = oracle; fee_basis_points = fee_basis_points; bump = bump },
      rest4,
    )

  unfoldable pub read_pet : Bytes → Option (Pet × Bytes)
  read_pet bytes = do
    (owner, rest1) ← (b.array 32).get bytes
    (kol_name, rest2) ← (b.array 32).get rest1
    (bonded_at, rest3) ← (b.u64).get rest2
    (bump, rest4) ← (b.u8).get rest3
    some (record { owner = owner; kol_name = kol_name; bonded_at = bonded_at; bump = bump }, rest4)

  unfoldable pub read_launch : Bytes → Option (Launch × Bytes)
  read_launch bytes = do
    (pet, rest1) ← (b.array 32).get bytes
    (pump_mint, rest2) ← (b.array 32).get rest1
    (bonded_slot, rest3) ← (b.u64).get rest2
    (real_sol_reserve, rest4) ← (b.u64).get rest3
    (real_token_reserve, rest5) ← (b.u64).get rest4
    (creator_fees_lamports, rest6) ← (b.u64).get rest5
    (total_volume_lamports, rest7) ← (b.u64).get rest6
    (graduated, rest8) ← (b.bool).get rest7
    (bump, rest9) ← (b.u8).get rest8
    some (
      record {
        pet = pet;
        pump_mint = pump_mint;
        bonded_slot = bonded_slot;
        real_sol_reserve = real_sol_reserve;
        real_token_reserve = real_token_reserve;
        creator_fees_lamports = creator_fees_lamports;
        total_volume_lamports = total_volume_lamports;
        graduated = graduated;
        bump = bump;
      },
      rest9,
    )

  unfoldable pub read_king : Bytes → Option (KingOfHill × Bytes)
  read_king bytes = do
    (pet, rest1) ← (b.array 32).get bytes
    (nft_mint, rest2) ← (b.array 32).get rest1
    (nft_escrow_vault, rest3) ← (b.array 32).get rest2
    (current_champion, rest4) ← (b.array 32).get rest3
    (champion_balance, rest5) ← (b.u64).get rest4
    (last_captured_slot, rest6) ← (b.u64).get rest5
    (take_overs, rest7) ← (b.u32).get rest6
    (bump, rest8) ← (b.u8).get rest7
    (nft_escrow_vault_bump, rest9) ← (b.u8).get rest8
    (settles_at_slot, rest10) ← (b.u64).get rest9
    (settled, rest11) ← (b.bool).get rest10
    some (
      record {
        pet = pet;
        nft_mint = nft_mint;
        nft_escrow_vault = nft_escrow_vault;
        current_champion = current_champion;
        champion_balance = champion_balance;
        last_captured_slot = last_captured_slot;
        take_overs = take_overs;
        bump = bump;
        nft_escrow_vault_bump = nft_escrow_vault_bump;
        settles_at_slot = settles_at_slot;
        settled = settled;
      },
      rest11,
    )

  unfoldable pub read_distribution : Bytes → Option (Distribution × Bytes)
  read_distribution bytes = do
    (epoch, rest1) ← (b.u64).get bytes
    (root, rest2) ← (b.array 32).get rest1
    (pool_lamports, rest3) ← (b.u64).get rest2
    (committed_at, rest4) ← (b.u64).get rest3
    (bump, rest5) ← (b.u8).get rest4
    some (
      record {
        epoch = epoch;
        root = root;
        pool_lamports = pool_lamports;
        committed_at = committed_at;
        bump = bump;
      },
      rest5,
    )

  unfoldable pub read_holder_claim : Bytes → Option (HolderClaim × Bytes)
  read_holder_claim bytes = do
    (holder, rest1) ← (b.array 32).get bytes
    (epoch, rest2) ← (b.u64).get rest1
    (amount_claimed, rest3) ← (b.u64).get rest2
    (claimed_at_slot, rest4) ← (b.u64).get rest3
    (bump, rest5) ← (b.u8).get rest4
    some (
      record {
        holder = holder;
        epoch = epoch;
        amount_claimed = amount_claimed;
        claimed_at_slot = claimed_at_slot;
        bump = bump;
      },
      rest5,
    )
