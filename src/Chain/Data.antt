-- ===== src/Chain/Data.antt =====
-- The bytes of every account that the program stores, and the space that its instructions ask for.
use kolz_protocol.Base.{ℕ}
use kolz_protocol.Bytes.{Bytes}
use kolz_protocol.Borsh.{Borsh}
use kolz_protocol.State.Config
use kolz_protocol.State.Pet
use kolz_protocol.State.Launch
use kolz_protocol.State.King
use kolz_protocol.State.Distribution
use kolz_protocol.State.HolderClaim
use kolz_protocol.State.Layout.{
  put_config, put_pet, put_launch, put_king, put_distribution, put_holder_claim,
}
use kolz_protocol.State.Layout.Sizes
use kolz_protocol.Chain.{
  Account, config_account, pet_account, launch_account, king_account, distribution_account,
  holder_claim_account,
}

unfoldable pub put_account : Borsh → Account → Bytes
put_account b (config_account x) = put_config b x
put_account b (pet_account x) = put_pet b x
put_account b (launch_account x) = put_launch b x
put_account b (king_account x) = put_king b x
put_account b (distribution_account x) = put_distribution b x
put_account b (holder_claim_account x) = put_holder_claim b x

-- The constant `SIZE` of the account's type.
abbrev pub space_of : Account → ℕ
space_of (config_account x) = Config.size
space_of (pet_account x) = Pet.size
space_of (launch_account x) = Launch.size
space_of (king_account x) = King.size
space_of (distribution_account x) = Distribution.size
space_of (holder_claim_account x) = HolderClaim.size

abbrev pub AccountFits : Account → Type 0
AccountFits (config_account x) = Sizes.ConfigFits x
AccountFits (pet_account x) = Sizes.PetFits x
AccountFits (launch_account x) = Sizes.LaunchFits x
AccountFits (king_account x) = Sizes.KingOfHillFits x
AccountFits (distribution_account x) = Sizes.DistributionFits x
AccountFits (holder_claim_account x) = Sizes.HolderClaimFits x

-- The bytes that stay unused at the end.
abbrev pub slack : Account → ℕ
slack (launch_account x) = 8
slack _ = 0
