-- ===== src/State/Layout/Sizes.antt =====
-- The bytes of an account against the constants `SIZE` of programs/cols/src/state.
use kolz_protocol.Base.{ℕ, ◌+◌, ◌<◌, ◌^◌, ◌≡◌, ◌++◌, length, length-append, arith}
use kolz_protocol.Bytes.{Bytes}
use kolz_protocol.Borsh.{Borsh, Primitive, IsFixed, IsBorsh}
use kolz_protocol.State.Layout.{
  put_config, put_pet, put_launch, put_king, put_distribution, put_holder_claim,
}
use kolz_protocol.State.Config.{Config}
use kolz_protocol.State.Pet.{Pet}
use kolz_protocol.State.Launch.{Launch}
use kolz_protocol.State.King.{KingOfHill}
use kolz_protocol.State.Distribution.{Distribution}
use kolz_protocol.State.HolderClaim.{HolderClaim}

-- The widths that the Rust types of the fields give.
pub record ConfigFits (self : Config) : Type 0 where
  pub admin : length self.admin ≡ 32
  pub oracle : length self.oracle ≡ 32
  pub fee_basis_points : self.fee_basis_points < 2 ^ 32
  pub bump : self.bump < 2 ^ 8
  pub reserved : length self.reserved ≡ 3

pub record PetFits (self : Pet) : Type 0 where
  pub owner : length self.owner ≡ 32
  pub kol_name : length self.kol_name ≡ 32
  pub bonded_at : self.bonded_at < 2 ^ 64
  pub bump : self.bump < 2 ^ 8
  pub reserved : length self.reserved ≡ 7

pub record LaunchFits (self : Launch) : Type 0 where
  pub pet : length self.pet ≡ 32
  pub pump_mint : length self.pump_mint ≡ 32
  pub bonded_slot : self.bonded_slot < 2 ^ 64
  pub real_sol_reserve : self.real_sol_reserve < 2 ^ 64
  pub real_token_reserve : self.real_token_reserve < 2 ^ 64
  pub creator_fees_lamports : self.creator_fees_lamports < 2 ^ 64
  pub total_volume_lamports : self.total_volume_lamports < 2 ^ 64
  pub bump : self.bump < 2 ^ 8
  pub reserved : length self.reserved ≡ 6

pub record KingOfHillFits (self : KingOfHill) : Type 0 where
  pub pet : length self.pet ≡ 32
  pub nft_mint : length self.nft_mint ≡ 32
  pub nft_escrow_vault : length self.nft_escrow_vault ≡ 32
  pub current_champion : length self.current_champion ≡ 32
  pub champion_balance : self.champion_balance < 2 ^ 64
  pub last_captured_slot : self.last_captured_slot < 2 ^ 64
  pub take_overs : self.take_overs < 2 ^ 32
  pub bump : self.bump < 2 ^ 8
  pub nft_escrow_vault_bump : self.nft_escrow_vault_bump < 2 ^ 8
  pub settles_at_slot : self.settles_at_slot < 2 ^ 64
  pub reserved : length self.reserved ≡ 5

pub record DistributionFits (self : Distribution) : Type 0 where
  pub epoch : self.epoch < 2 ^ 64
  pub root : length self.root ≡ 32
  pub pool_lamports : self.pool_lamports < 2 ^ 64
  pub committed_at : self.committed_at < 2 ^ 64
  pub bump : self.bump < 2 ^ 8
  pub reserved : length self.reserved ≡ 7

pub record HolderClaimFits (self : HolderClaim) : Type 0 where
  pub holder : length self.holder ≡ 32
  pub epoch : self.epoch < 2 ^ 64
  pub amount_claimed : self.amount_claimed < 2 ^ 64
  pub claimed_at_slot : self.claimed_at_slot < 2 ^ 64
  pub bump : self.bump < 2 ^ 8
  pub reserved : length self.reserved ≡ 7

-- A field in front of the others.
length-put-append :
    {A : Type 0} {p : Primitive A} {Fits : A → Type 0} {width n : ℕ} (f : IsFixed p Fits width)
    (a : A) (rest : Bytes)
    → Fits a
    → length rest ≡ n
    → length (p.put a ++ rest) ≡ width + n
length-put-append {p = p} f a rest h e =
    omega (arith, length-append (p.put a) rest, f.length_put a h, e)

module _ (b : Borsh) (laws : IsBorsh b) where
  pub length-put_config : (self : Config) → ConfigFits self → length (put_config b self) ≡ 72
  unfolding put_config
  length-put_config self h = length-put-append (laws.array_fixed 32) self.admin _ h.admin (
      length-put-append (laws.array_fixed 32) self.oracle _ h.oracle (
        length-put-append laws.u32_fixed self.fee_basis_points _ h.fee_basis_points (
          length-put-append laws.u8_fixed self.bump _ h.bump
            ((laws.array_fixed 3).length_put self.reserved h.reserved))))

  pub length-put_pet : (self : Pet) → PetFits self → length (put_pet b self) ≡ 80
  unfolding put_pet
  length-put_pet self h = length-put-append (laws.array_fixed 32) self.owner _ h.owner (
      length-put-append (laws.array_fixed 32) self.kol_name _ h.kol_name (
        length-put-append laws.u64_fixed self.bonded_at _ h.bonded_at (
          length-put-append laws.u8_fixed self.bump _ h.bump
            ((laws.array_fixed 7).length_put self.reserved h.reserved))))

  pub length-put_launch : (self : Launch) → LaunchFits self → length (put_launch b self) ≡ 112
  unfolding put_launch
  length-put_launch self h = length-put-append (laws.array_fixed 32) self.pet _ h.pet (
      length-put-append (laws.array_fixed 32) self.pump_mint _ h.pump_mint (
        length-put-append laws.u64_fixed self.bonded_slot _ h.bonded_slot (
          length-put-append laws.u64_fixed self.real_sol_reserve _ h.real_sol_reserve (
            length-put-append laws.u64_fixed self.real_token_reserve _ h.real_token_reserve (
              length-put-append laws.u64_fixed self.creator_fees_lamports _ h.creator_fees_lamports
                (length-put-append laws.u64_fixed self.total_volume_lamports _
                  h.total_volume_lamports
                  (length-put-append laws.bool_fixed self.graduated _ tt (
                    length-put-append laws.u8_fixed self.bump _ h.bump
                      ((laws.array_fixed 6).length_put self.reserved h.reserved)))))))))

  pub length-put_king : (self : KingOfHill) → KingOfHillFits self → length (put_king b self) ≡ 164
  unfolding put_king
  length-put_king self h = length-put-append (laws.array_fixed 32) self.pet _ h.pet (
      length-put-append (laws.array_fixed 32) self.nft_mint _ h.nft_mint (
        length-put-append (laws.array_fixed 32) self.nft_escrow_vault _ h.nft_escrow_vault (
          length-put-append (laws.array_fixed 32) self.current_champion _ h.current_champion (
            length-put-append laws.u64_fixed self.champion_balance _ h.champion_balance (
              length-put-append laws.u64_fixed self.last_captured_slot _ h.last_captured_slot (
                length-put-append laws.u32_fixed self.take_overs _ h.take_overs (
                  length-put-append laws.u8_fixed self.bump _ h.bump (
                    length-put-append laws.u8_fixed self.nft_escrow_vault_bump _
                      h.nft_escrow_vault_bump
                      (length-put-append laws.u64_fixed self.settles_at_slot _ h.settles_at_slot (
                        length-put-append laws.bool_fixed self.settled _ tt
                          ((laws.array_fixed 5).length_put self.reserved h.reserved)))))))))))

  pub length-put_distribution :
      (self : Distribution) → DistributionFits self → length (put_distribution b self) ≡ 64
  unfolding put_distribution
  length-put_distribution self h = length-put-append laws.u64_fixed self.epoch _ h.epoch (
      length-put-append (laws.array_fixed 32) self.root _ h.root (
        length-put-append laws.u64_fixed self.pool_lamports _ h.pool_lamports (
          length-put-append laws.u64_fixed self.committed_at _ h.committed_at (
            length-put-append laws.u8_fixed self.bump _ h.bump
              ((laws.array_fixed 7).length_put self.reserved h.reserved)))))

  pub length-put_holder_claim :
      (self : HolderClaim) → HolderClaimFits self → length (put_holder_claim b self) ≡ 64
  unfolding put_holder_claim
  length-put_holder_claim self h = length-put-append (laws.array_fixed 32) self.holder _ h.holder (
      length-put-append laws.u64_fixed self.epoch _ h.epoch (
        length-put-append laws.u64_fixed self.amount_claimed _ h.amount_claimed (
          length-put-append laws.u64_fixed self.claimed_at_slot _ h.claimed_at_slot (
            length-put-append laws.u8_fixed self.bump _ h.bump
              ((laws.array_fixed 7).length_put self.reserved h.reserved)))))
