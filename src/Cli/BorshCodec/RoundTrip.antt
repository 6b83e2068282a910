-- ===== src/Cli/BorshCodec/RoundTrip.antt =====
-- The readers of cli/src/borsh_codec.rs on the bytes that the program lays out.
use kolz_protocol.Base.{ℕ, ◌≡◌, ◌∙◌, Option, some, ◌++◌}
use kolz_protocol.Bytes.{Bytes}
use kolz_protocol.Borsh.{Borsh, Primitive, IsFixed, IsBorsh, ◌>>=◌}
use kolz_protocol.State.Layout.{
  put_config, put_pet, put_launch, put_king, put_distribution, put_holder_claim,
}
use kolz_protocol.State.Layout.Sizes.{
  ConfigFits, PetFits, LaunchFits, KingOfHillFits, DistributionFits, HolderClaimFits,
}
use kolz_protocol.Cli.Accounts
use kolz_protocol.Cli.Accounts.{
  read_config, read_pet, read_launch, read_king, read_distribution, read_holder_claim,
}
use mathlib.Core.List.{append_assoc}
use kolz_protocol.State.Config.{Config}
use kolz_protocol.State.Pet.{Pet}
use kolz_protocol.State.Launch.{Launch}
use kolz_protocol.State.King.{KingOfHill}
use kolz_protocol.State.Distribution.{Distribution}
use kolz_protocol.State.HolderClaim.{HolderClaim}

bind-put :
    {A B : Type 0} {p : Primitive A} {Fits : A → Type 0} {width : ℕ} (law : IsFixed p Fits width)
    (a : A) (rest tail : Bytes) (f : A × Bytes → Option B)
    → Fits a
    → (p.get ((p.put a ++ rest) ++ tail) >>= f) ≡ f (a, rest ++ tail)
bind-put {p = p} law a rest tail f h =
    rw (append_assoc (p.put a) rest tail, law.get_put a (rest ++ tail) h)

-- The fields that the client keeps of an account.
abbrev pub view_config : Config → Accounts.Config
view_config self = record {
  admin = self.admin;
  oracle = self.oracle;
  fee_basis_points = self.fee_basis_points;
  bump = self.bump;
}

abbrev pub view_pet : Pet → Accounts.Pet
view_pet self = record {
  owner = self.owner;
  kol_name = self.kol_name;
  bonded_at = self.bonded_at;
  bump = self.bump;
}

abbrev pub view_launch : Launch → Accounts.Launch
view_launch self = record {
  pet = self.pet;
  pump_mint = self.pump_mint;
  bonded_slot = self.bonded_slot;
  real_sol_reserve = self.real_sol_reserve;
  real_token_reserve = self.real_token_reserve;
  creator_fees_lamports = self.creator_fees_lamports;
  total_volume_lamports = self.total_volume_lamports;
  graduated = self.graduated;
  bump = self.bump;
}

abbrev pub view_king : KingOfHill → Accounts.KingOfHill
view_king self = record {
  pet = self.pet;
  nft_mint = self.nft_mint;
  nft_escrow_vault = self.nft_escrow_vault;
  current_champion = self.current_champion;
  champion_balance = self.champion_balance;
  last_captured_slot = self.last_captured_slot;
  take_overs = self.take_overs;
  bump = self.bump;
  nft_escrow_vault_bump = self.nft_escrow_vault_bump;
  settles_at_slot = self.settles_at_slot;
  settled = self.settled;
}

abbrev pub view_distribution : Distribution → Accounts.Distribution
view_distribution self = record {
  epoch = self.epoch;
  root = self.root;
  pool_lamports = self.pool_lamports;
  committed_at = self.committed_at;
  bump = self.bump;
}

abbrev pub view_holder_claim : HolderClaim → Accounts.HolderClaim
view_holder_claim self = record {
  holder = self.holder;
  epoch = self.epoch;
  amount_claimed = self.amount_claimed;
  claimed_at_slot = self.claimed_at_slot;
  bump = self.bump;
}

module _ (b : Borsh) (laws : IsBorsh b) where
  pub read_config-put_config :
      (self : Config) (tail : Bytes)
      → ConfigFits self
      → read_config b (put_config b self ++ tail)
        ≡ some (view_config self, (b.array 3).put self.reserved ++ tail)
  unfolding read_config put_config
  read_config-put_config self tail h =
      bind-put (laws.array_fixed 32) self.admin _ tail _ h.admin
      ∙ bind-put (laws.array_fixed 32) self.oracle _ tail _ h.oracle
      ∙ bind-put (laws.u32_fixed) self.fee_basis_points _ tail _ h.fee_basis_points
      ∙ bind-put (laws.u8_fixed) self.bump _ tail _ h.bump

  pub read_pet-put_pet :
      (self : Pet) (tail : Bytes)
      → PetFits self
      → read_pet b (put_pet b self ++ tail)
        ≡ some (view_pet self, (b.array 7).put self.reserved ++ tail)
  unfolding read_pet put_pet
  read_pet-put_pet self tail h =
      bind-put (laws.array_fixed 32) self.owner _ tail _ h.owner
      ∙ bind-put (laws.array_fixed 32) self.kol_name _ tail _ h.kol_name
      ∙ bind-put (laws.u64_fixed) self.bonded_at _ tail _ h.bonded_at
      ∙ bind-put (laws.u8_fixed) self.bump _ tail _ h.bump

  pub read_launch-put_launch :
      (self : Launch) (tail : Bytes)
      → LaunchFits self
      → read_launch b (put_launch b self ++ tail)
        ≡ some (view_launch self, (b.array 6).put self.reserved ++ tail)
  unfolding read_launch put_launch
  read_launch-put_launch self tail h =
      bind-put (laws.array_fixed 32) self.pet _ tail _ h.pet
      ∙ bind-put (laws.array_fixed 32) self.pump_mint _ tail _ h.pump_mint
      ∙ bind-put (laws.u64_fixed) self.bonded_slot _ tail _ h.bonded_slot
      ∙ bind-put (laws.u64_fixed) self.real_sol_reserve _ tail _ h.real_sol_reserve
      ∙ bind-put (laws.u64_fixed) self.real_token_reserve _ tail _ h.real_token_reserve
      ∙ bind-put (laws.u64_fixed) self.creator_fees_lamports _ tail _ h.creator_fees_lamports
      ∙ bind-put (laws.u64_fixed) self.total_volume_lamports _ tail _ h.total_volume_lamports
      ∙ bind-put (laws.bool_fixed) self.graduated _ tail _ tt
      ∙ bind-put (laws.u8_fixed) self.bump _ tail _ h.bump

  -- Of the bytes that the program stores for a throne with fields of its types, the client reads back
  -- each field, and leaves the five bytes of padding.
  pub read_king-put_king :
      (self : KingOfHill) (tail : Bytes)
      → KingOfHillFits self
      → read_king b (put_king b self ++ tail)
        ≡ some (view_king self, (b.array 5).put self.reserved ++ tail)
  unfolding read_king put_king
  read_king-put_king self tail h =
      bind-put (laws.array_fixed 32) self.pet _ tail _ h.pet
      ∙ bind-put (laws.array_fixed 32) self.nft_mint _ tail _ h.nft_mint
      ∙ bind-put (laws.array_fixed 32) self.nft_escrow_vault _ tail _ h.nft_escrow_vault
      ∙ bind-put (laws.array_fixed 32) self.current_champion _ tail _ h.current_champion
      ∙ bind-put (laws.u64_fixed) self.champion_balance _ tail _ h.champion_balance
      ∙ bind-put (laws.u64_fixed) self.last_captured_slot _ tail _ h.last_captured_slot
      ∙ bind-put (laws.u32_fixed) self.take_overs _ tail _ h.take_overs
      ∙ bind-put (laws.u8_fixed) self.bump _ tail _ h.bump
      ∙ bind-put (laws.u8_fixed) self.nft_escrow_vault_bump _ tail _ h.nft_escrow_vault_bump
      ∙ bind-put (laws.u64_fixed) self.settles_at_slot _ tail _ h.settles_at_slot
      ∙ bind-put (laws.bool_fixed) self.settled _ tail _ tt

  pub read_distribution-put_distribution :
      (self : Distribution) (tail : Bytes)
      → DistributionFits self
      → read_distribution b (put_distribution b self ++ tail)
        ≡ some (view_distribution self, (b.array 7).put self.reserved ++ tail)
  unfolding read_distribution put_distribution
  read_distribution-put_distribution self tail h =
      bind-put (laws.u64_fixed) self.epoch _ tail _ h.epoch
      ∙ bind-put (laws.array_fixed 32) self.root _ tail _ h.root
      ∙ bind-put (laws.u64_fixed) self.pool_lamports _ tail _ h.pool_lamports
      ∙ bind-put (laws.u64_fixed) self.committed_at _ tail _ h.committed_at
      ∙ bind-put (laws.u8_fixed) self.bump _ tail _ h.bump

  pub read_holder_claim-put_holder_claim :
      (self : HolderClaim) (tail : Bytes)
      → HolderClaimFits self
      → read_holder_claim b (put_holder_claim b self ++ tail)
        ≡ some (view_holder_claim self, (b.array 7).put self.reserved ++ tail)
  unfolding read_holder_claim put_holder_claim
  read_holder_claim-put_holder_claim self tail h =
      bind-put (laws.array_fixed 32) self.holder _ tail _ h.holder
      ∙ bind-put (laws.u64_fixed) self.epoch _ tail _ h.epoch
      ∙ bind-put (laws.u64_fixed) self.amount_claimed _ tail _ h.amount_claimed
      ∙ bind-put (laws.u64_fixed) self.claimed_at_slot _ tail _ h.claimed_at_slot
      ∙ bind-put (laws.u8_fixed) self.bump _ tail _ h.bump
