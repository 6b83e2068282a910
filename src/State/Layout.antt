-- ===== src/State/Layout.antt =====
-- The bytes of the accounts in programs/cols/src/state, as the attribute `#[account]` lays them out:
-- the fields in their order, after the eight bytes of a discriminator, and zeros up to the size that
-- the account was created with.
pub mod Sizes
use kolz_protocol.Base.{ℕ, ◌+◌, ◌-◌, List, [], ◌∷◌, ◌++◌, length, replicate}
use kolz_protocol.Bytes.{Bytes}
use kolz_protocol.Borsh.{Borsh}
use kolz_protocol.State.Config.{Config}
use kolz_protocol.State.Pet.{Pet}
use kolz_protocol.State.Launch.{Launch}
use kolz_protocol.State.King.{KingOfHill}
use kolz_protocol.State.Distribution.{Distribution}
use kolz_protocol.State.HolderClaim.{HolderClaim}

-- The content of an account of `size` bytes that was zero before.
unfoldable pub account_data : Bytes → Bytes → ℕ → Bytes
account_data discriminator fields size =
    discriminator ++ (fields ++ replicate (size - (length discriminator + length fields)) 0)

module _ (b : Borsh) where
  unfoldable pub put_config : Config → Bytes
  put_config self =
      (b.array 32).put self.admin
      ++ ((b.array 32).put self.oracle
          ++ ((b.u32).put self.fee_basis_points
              ++ ((b.u8).put self.bump ++ ((b.array 3).put self.reserved))))

  unfoldable pub put_pet : Pet → Bytes
  put_pet self =
      (b.array 32).put self.owner
      ++ ((b.array 32).put self.kol_name
          ++ ((b.u64).put self.bonded_at
              ++ ((b.u8).put self.bump ++ ((b.array 7).put self.reserved))))

  unfoldable pub put_launch : Launch → Bytes
  put_launch self =
      (b.array 32).put self.pet
      ++ ((b.array 32).put self.pump_mint
          ++ ((b.u64).put self.bonded_slot
              ++ ((b.u64).put self.real_sol_reserve
                  ++ ((b.u64).put self.real_token_reserve
                      ++ ((b.u64).put self.creator_fees_lamports
                          ++ ((b.u64).put self.total_volume_lamports
                              ++ ((b.bool).put self.graduated
                                  ++ ((b.u8).put self.bump
                                      ++ ((b.array 6).put self.reserved)))))))))

  unfoldable pub put_king : KingOfHill → Bytes
  put_king self =
      (b.array 32).put self.pet
      ++ ((b.array 32).put self.nft_mint
          ++ ((b.array 32).put self.nft_escrow_vault
              ++ ((b.array 32).put self.current_champion
                  ++ ((b.u64).put self.champion_balance
                      ++ ((b.u64).put self.last_captured_slot
                          ++ ((b.u32).put self.take_overs
                              ++ ((b.u8).put self.bump
                                  ++ ((b.u8).put self.nft_escrow_vault_bump
                                      ++ ((b.u64).put self.settles_at_slot
                                          ++ ((b.bool).put self.settled
                                              ++ ((b.array 5).put self.reserved)))))))))))

  unfoldable pub put_distribution : Distribution → Bytes
  put_distribution self =
      (b.u64).put self.epoch
      ++ ((b.array 32).put self.root
          ++ ((b.u64).put self.pool_lamports
              ++ ((b.u64).put self.committed_at
                  ++ ((b.u8).put self.bump ++ ((b.array 7).put self.reserved)))))

  unfoldable pub put_holder_claim : HolderClaim → Bytes
  put_holder_claim self =
      (b.array 32).put self.holder
      ++ ((b.u64).put self.epoch
          ++ ((b.u64).put self.amount_claimed
              ++ ((b.u64).put self.claimed_at_slot
                  ++ ((b.u8).put self.bump ++ ((b.array 7).put self.reserved)))))
