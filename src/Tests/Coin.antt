-- ===== src/Tests/Coin.antt =====
-- The launch of the scenario's pet, at Bob's capture.
use kolz_protocol.Base.{ℕ, ◌≡◌, refl, ◌≢◌, ap, sym, ◌∙◌, false, Option, some, [], ◌∷◌, arith}
use kolz_protocol.Bytes.{Bytes, bytes_eq, bytes_le, to_le_bytes, default_pubkey}
use kolz_protocol.Merkle
use kolz_protocol.Merkle.Membership.{entry_leaf}
use kolz_protocol.Utils
use kolz_protocol.State.King
use kolz_protocol.State.King.{KingOfHill}
use kolz_protocol.State.Launch
use kolz_protocol.State.Launch.{Launch}
use kolz_protocol.Runtime.{TokenAccount}
use kolz_protocol.Chain
use kolz_protocol.Chain.{Account, king_account, launch_account, lookup}
use kolz_protocol.Instructions.InitConfig
use kolz_protocol.Instructions.TakeThrone
use kolz_protocol.Instructions.BindLaunch
use kolz_protocol.Instructions.MintKolNft
use kolz_protocol.Instructions.SettleThrone
use kolz_protocol.Instructions.CommitDistributionRoot
use kolz_protocol.Instructions.ClaimHolderFees
use kolz_protocol.Program.{process, here, next, executes, take_throne}
use kolz_protocol.Program.Coin.{capture_of_coin}
use kolz_protocol.Tests.World
use kolz_protocol.Tests.World.{toy, key}
use kolz_protocol.Tests.Scenario
use kolz_protocol.Tests.History

abbrev launch_of : Option Account → Launch
launch_of (some (launch_account l)) = l
launch_of _ = Launch.default

abbrev coin : Launch
coin = launch_of (lookup Scenario.launch History.minted.accounts)

abbrev first_byte : Bytes → ℕ
first_byte [] = 0
first_byte (b ∷ bytes) = b

coin_stored : lookup Scenario.launch History.minted.accounts ≡ some (launch_account coin)
unfolding process InitConfig.init_config BindLaunch.oracle_bind_pumpfun_launch BindLaunch.bind_pet
    BindLaunch.bind_launch MintKolNft.mint_kol_nft TakeThrone.take_throne TakeThrone.move_nft
    TakeThrone.deadline TakeThrone.captured SettleThrone.settle_throne
    CommitDistributionRoot.commit_distribution_root ClaimHolderFees.claim_holder_fees
    Chain.check_signer Chain.check_mut Chain.check_program Chain.check_sysvar Chain.check_mint
    Chain.check_seeds Chain.find_bump Chain.init_account Chain.init_if_needed Chain.signers_with
    Chain.load_config Chain.load_pet Chain.load_launch Chain.load_king Chain.load_distribution
    Chain.load_token Chain.is_fresh Chain.lookup Chain.contains Chain.put Chain.insert bytes_eq
    to_le_bytes Utils.check_fee_bps Utils.check_metadata_lengths Utils.saturating_add
    Utils.checked_add King.is_unclaimed World.flatten World.roll World.find_token World.revoke_as
    World.owns Merkle.proof_for Merkle.root Merkle.verify_merkle_proof
    Merkle.compute_distribution_leaf Merkle.leaf_preimage Merkle.pair_preimage entry_leaf bytes_le
coin_stored = refl

of_pet : coin.pet ≡ Scenario.pet
unfolding process InitConfig.init_config BindLaunch.oracle_bind_pumpfun_launch BindLaunch.bind_pet
    BindLaunch.bind_launch MintKolNft.mint_kol_nft TakeThrone.take_throne TakeThrone.move_nft
    TakeThrone.deadline TakeThrone.captured SettleThrone.settle_throne
    CommitDistributionRoot.commit_distribution_root ClaimHolderFees.claim_holder_fees
    Chain.check_signer Chain.check_mut Chain.check_program Chain.check_sysvar Chain.check_mint
    Chain.check_seeds Chain.find_bump Chain.init_account Chain.init_if_needed Chain.signers_with
    Chain.load_config Chain.load_pet Chain.load_launch Chain.load_king Chain.load_distribution
    Chain.load_token Chain.is_fresh Chain.lookup Chain.contains Chain.put Chain.insert bytes_eq
    to_le_bytes Utils.check_fee_bps Utils.check_metadata_lengths Utils.saturating_add
    Utils.checked_add King.is_unclaimed World.flatten World.roll World.find_token World.revoke_as
    World.owns Merkle.proof_for Merkle.root Merkle.verify_merkle_proof
    Merkle.compute_distribution_leaf Merkle.leaf_preimage Merkle.pair_preimage entry_leaf bytes_le
of_pet = refl

pet_derived : Scenario.pet ≢ default_pubkey
unfolding World.flatten World.roll
pet_derived e = omega (arith, ap first_byte e)

capture_of_coin_example :
    (k : KingOfHill) × (holding : TokenAccount) × (lookup Scenario.king History.taken.accounts
      ≡ some (king_account k))
    × (k.pet ≡ coin.pet)
    × ((toy false).token_account History.taken.ext (key 9) ≡ some holding)
    × (holding.owner ≡ Scenario.bob)
    × (holding.mint ≡ coin.pump_mint)
unfolding process
capture_of_coin_example =
    capture_of_coin (toy false) Scenario.world Scenario.launch coin
      (History.event_of History.second_result) (Scenario.tx_of Scenario.bob) Scenario.bob_takes
      History.to_minted coin_stored (λ e. pet_derived (sym of_pet ∙ e))
      (next here (
        executes (Scenario.tx_of Scenario.alice) (take_throne Scenario.alice_takes)
          (History.event_of History.first_result) History.first_runs))
      History.second_runs (sym of_pet)
