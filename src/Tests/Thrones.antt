-- ===== src/Tests/Thrones.antt =====
-- Thrones of the scenario.
use kolz_protocol.Base.{
  ℕ, ◌≡◌, refl, ◌≢◌, sym, ◌∙◌, ◌+◌, ◌⊎◌, ◌<◌, true, false, Option, some, arith,
}
use kolz_protocol.Bytes.{bytes_eq, bytes_le, to_le_bytes}
use kolz_protocol.Errors.{ok, err, cols, invalid_amount}
use kolz_protocol.Merkle
use kolz_protocol.Merkle.Membership.{entry_leaf}
use kolz_protocol.Utils
use kolz_protocol.State.King
use kolz_protocol.State.King.{KingOfHill}
use kolz_protocol.Chain
use kolz_protocol.Chain.{Tx, Account, king_account, lookup, contains}
use kolz_protocol.Instructions.InitConfig
use kolz_protocol.Instructions.TakeThrone
use kolz_protocol.Instructions.BindLaunch
use kolz_protocol.Instructions.MintKolNft
use kolz_protocol.Instructions.SettleThrone
use kolz_protocol.Instructions.CommitDistributionRoot
use kolz_protocol.Instructions.ClaimHolderFees
use kolz_protocol.Program.{here, process}
use kolz_protocol.Tests.World
use kolz_protocol.Tests.World.{World, toy, key, toy_hash, length-toy_hash}
use kolz_protocol.Tests.Scenario
use kolz_protocol.Tests.History
use kolz_protocol.Program.Throne
use kolz_protocol.Program.Thrones.{
  throne-Evolves, capture_outholds, no_capture_after_settlement, settle_once,
}
use kolz_protocol.Program.Settlement.{
  RevokeNeedsOwner, settle_needs_own_champion, take_throne-ne-invalid_amount,
}
use kolz_protocol.Bytes.Order.{bytes_eq→≡}
use kolz_protocol.Constants.{throne_settlement_slots}
use kolz_protocol.Runtime.{TokenAccount}

abbrev throne_of : Option Account → KingOfHill
throne_of (some (king_account k)) = k
throne_of _ = King.default

-- The throne after Alice's capture, after Bob's, and settled.
abbrev alices : KingOfHill
alices = throne_of (lookup Scenario.king History.taken.accounts)

abbrev bobs : KingOfHill
bobs = throne_of (lookup Scenario.king History.waited.accounts)

abbrev settled_throne : KingOfHill
settled_throne = throne_of (lookup Scenario.king History.settled.accounts)

alices_stored : lookup Scenario.king History.taken.accounts ≡ some (king_account alices)
unfolding process InitConfig.init_config BindLaunch.oracle_bind_pumpfun_launch BindLaunch.bind_pet
    BindLaunch.bind_launch MintKolNft.mint_kol_nft TakeThrone.take_throne TakeThrone.move_nft
    TakeThrone.deadline TakeThrone.captured SettleThrone.settle_throne
    CommitDistributionRoot.commit_distribution_root ClaimHolderFees.claim_holder_fees
    Chain.check_signer Chain.check_mut Chain.check_program Chain.check_sysvar Chain.check_mint
    Chain.check_seeds Chain.find_bump Chain.init_account Chain.init_if_needed Chain.signers_with
    Chain.load_config Chain.load_pet Chain.load_launch Chain.load_king Chain.load_distribution
    Chain.load_token Chain.is_fresh Chain.lookup Chain.contains Chain.put Chain.insert bytes_eq
    to_le_bytes Utils.check_fee_bps Utils.check_metadata_lengths Utils.saturating_add
    Utils.checked_add King.is_unclaimed World.flatten World.roll World.find_token World.revoke_as
    World.owns Merkle.proof_for Merkle.root Merkle.verify_merkle_proof
    Merkle.compute_distribution_leaf Merkle.leaf_preimage Merkle.pair_preimage entry_leaf bytes_le
alices_stored = refl

bobs_stored : lookup Scenario.king History.waited.accounts ≡ some (king_account bobs)
unfolding process InitConfig.init_config BindLaunch.oracle_bind_pumpfun_launch BindLaunch.bind_pet
    BindLaunch.bind_launch MintKolNft.mint_kol_nft TakeThrone.take_throne TakeThrone.move_nft
    TakeThrone.deadline TakeThrone.captured SettleThrone.settle_throne
    CommitDistributionRoot.commit_distribution_root ClaimHolderFees.claim_holder_fees
    Chain.check_signer Chain.check_mut Chain.check_program Chain.check_sysvar Chain.check_mint
    Chain.check_seeds Chain.find_bump Chain.init_account Chain.init_if_needed Chain.signers_with
    Chain.load_config Chain.load_pet Chain.load_launch Chain.load_king Chain.load_distribution
    Chain.load_token Chain.is_fresh Chain.lookup Chain.contains Chain.put Chain.insert bytes_eq
    to_le_bytes Utils.check_fee_bps Utils.check_metadata_lengths Utils.saturating_add
    Utils.checked_add King.is_unclaimed World.flatten World.roll World.find_token World.revoke_as
    World.owns Merkle.proof_for Merkle.root Merkle.verify_merkle_proof
    Merkle.compute_distribution_leaf Merkle.leaf_preimage Merkle.pair_preimage entry_leaf bytes_le
bobs_stored = refl

settled_stored : lookup Scenario.king History.settled.accounts ≡ some (king_account settled_throne)
unfolding process InitConfig.init_config BindLaunch.oracle_bind_pumpfun_launch BindLaunch.bind_pet
    BindLaunch.bind_launch MintKolNft.mint_kol_nft TakeThrone.take_throne TakeThrone.move_nft
    TakeThrone.deadline TakeThrone.captured SettleThrone.settle_throne
    CommitDistributionRoot.commit_distribution_root ClaimHolderFees.claim_holder_fees
    Chain.check_signer Chain.check_mut Chain.check_program Chain.check_sysvar Chain.check_mint
    Chain.check_seeds Chain.find_bump Chain.init_account Chain.init_if_needed Chain.signers_with
    Chain.load_config Chain.load_pet Chain.load_launch Chain.load_king Chain.load_distribution
    Chain.load_token Chain.is_fresh Chain.lookup Chain.contains Chain.put Chain.insert bytes_eq
    to_le_bytes Utils.check_fee_bps Utils.check_metadata_lengths Utils.saturating_add
    Utils.checked_add King.is_unclaimed World.flatten World.roll World.find_token World.revoke_as
    World.owns Merkle.proof_for Merkle.root Merkle.verify_merkle_proof
    Merkle.compute_distribution_leaf Merkle.leaf_preimage Merkle.pair_preimage entry_leaf bytes_le
settled_stored = refl

is_settled : settled_throne.settled ≡ true
unfolding process InitConfig.init_config BindLaunch.oracle_bind_pumpfun_launch BindLaunch.bind_pet
    BindLaunch.bind_launch MintKolNft.mint_kol_nft TakeThrone.take_throne TakeThrone.move_nft
    TakeThrone.deadline TakeThrone.captured SettleThrone.settle_throne
    CommitDistributionRoot.commit_distribution_root ClaimHolderFees.claim_holder_fees
    Chain.check_signer Chain.check_mut Chain.check_program Chain.check_sysvar Chain.check_mint
    Chain.check_seeds Chain.find_bump Chain.init_account Chain.init_if_needed Chain.signers_with
    Chain.load_config Chain.load_pet Chain.load_launch Chain.load_king Chain.load_distribution
    Chain.load_token Chain.is_fresh Chain.lookup Chain.contains Chain.put Chain.insert bytes_eq
    to_le_bytes Utils.check_fee_bps Utils.check_metadata_lengths Utils.saturating_add
    Utils.checked_add King.is_unclaimed World.flatten World.roll World.find_token World.revoke_as
    World.owns Merkle.proof_for Merkle.root Merkle.verify_merkle_proof
    Merkle.compute_distribution_leaf Merkle.leaf_preimage Merkle.pair_preimage entry_leaf bytes_le
is_settled = refl

champion_is_bob : bobs.current_champion ≡ Scenario.bob
unfolding process InitConfig.init_config BindLaunch.oracle_bind_pumpfun_launch BindLaunch.bind_pet
    BindLaunch.bind_launch MintKolNft.mint_kol_nft TakeThrone.take_throne TakeThrone.move_nft
    TakeThrone.deadline TakeThrone.captured SettleThrone.settle_throne
    CommitDistributionRoot.commit_distribution_root ClaimHolderFees.claim_holder_fees
    Chain.check_signer Chain.check_mut Chain.check_program Chain.check_sysvar Chain.check_mint
    Chain.check_seeds Chain.find_bump Chain.init_account Chain.init_if_needed Chain.signers_with
    Chain.load_config Chain.load_pet Chain.load_launch Chain.load_king Chain.load_distribution
    Chain.load_token Chain.is_fresh Chain.lookup Chain.contains Chain.put Chain.insert bytes_eq
    to_le_bytes Utils.check_fee_bps Utils.check_metadata_lengths Utils.saturating_add
    Utils.checked_add King.is_unclaimed World.flatten World.roll World.find_token World.revoke_as
    World.owns Merkle.proof_for Merkle.root Merkle.verify_merkle_proof
    Merkle.compute_distribution_leaf Merkle.leaf_preimage Merkle.pair_preimage entry_leaf bytes_le
champion_is_bob = refl

bob-ne-king : Scenario.bob ≢ Scenario.king
unfolding World.flatten World.roll
bob-ne-king e = ground arith

owner_only : RevokeNeedsOwner (toy true)
unfolding World.revoke_as World.owns
owner_only account authority signers ext ext' t h found =
    ground (arith, bytes_eq→≡ t.owner authority)

throne-Evolves_example :
    (k : KingOfHill) × (lookup Scenario.king History.retaken.accounts ≡ some (king_account k))
    × Throne.Evolves alices k
throne-Evolves_example =
    throne-Evolves (toy false) Scenario.world Scenario.king alices History.to_taken
      History.to_retaken alices_stored

capture_outholds_example :
    (k k' : KingOfHill) × (holding : TokenAccount) × (now : ℕ) × (lookup Scenario.king
        History.taken.accounts
      ≡ some (king_account k))
    × (lookup Scenario.king History.retaken.accounts ≡ some (king_account k'))
    × (contains (Scenario.tx_of Scenario.bob).signers Scenario.bob ≡ true)
    × ((toy false).token_account History.taken.ext (key 9) ≡ some holding)
    × (holding.owner ≡ Scenario.bob)
    × (holding.mint ≡ Scenario.pump_mint)
    × ((toy false).clock_slot History.taken.ext ≡ some now)
    × (k.champion_balance < holding.amount)
    × (k'.current_champion ≡ Scenario.bob)
    × (k'.champion_balance ≡ holding.amount)
    × (now < k'.settles_at_slot)
    × (((k.take_overs ≡ 0) × (k'.settles_at_slot ≡ now + throne_settlement_slots))
        ⊎ ((0 < k.take_overs) × (k'.settles_at_slot ≡ k.settles_at_slot)))
unfolding process
capture_outholds_example =
    capture_outholds (toy false) Scenario.world (History.event_of History.second_result)
      (Scenario.tx_of Scenario.bob) Scenario.bob_takes History.to_taken History.second_runs

no_capture_after_settlement_example :
    TakeThrone.take_throne
      (toy false)
      (Scenario.tx_of Scenario.alice)
      Scenario.alice_takes
      History.settled
    ≢ ok (History.settled, History.event_of History.settle_result)
no_capture_after_settlement_example =
    no_capture_after_settlement (toy false) Scenario.world Scenario.king settled_throne
      (Scenario.tx_of Scenario.alice) Scenario.alice_takes History.settled
      (History.event_of History.settle_result) History.to_settled settled_stored is_settled here
      refl

settle_once_example :
    SettleThrone.settle_throne
      (toy false)
      (Scenario.tx_of Scenario.oracle)
      Scenario.settle_accounts
      History.settled
    ≢ ok (History.settled, History.event_of History.settle_result)
settle_once_example =
    settle_once (toy false) Scenario.world Scenario.king settled_throne
      (Scenario.tx_of Scenario.oracle) Scenario.settle_accounts History.settled
      (History.event_of History.settle_result) History.to_settled settled_stored is_settled here
      refl

settle_needs_own_champion_example :
    SettleThrone.settle_throne
      (toy true)
      (Scenario.tx_of Scenario.oracle)
      Scenario.settle_accounts
      History.waited
    ≢ ok (History.settled, History.event_of History.settle_result)
settle_needs_own_champion_example =
    settle_needs_own_champion (toy true) owner_only History.waited History.settled
      (History.event_of History.settle_result) (Scenario.tx_of Scenario.oracle)
      Scenario.settle_accounts bobs bobs_stored (λ e. bob-ne-king (sym champion_is_bob ∙ e))

take_throne-ne-invalid_amount_example :
    TakeThrone.take_throne
      (toy false)
      (Scenario.tx_of Scenario.bob)
      Scenario.bob_takes
      History.taken
    ≢ err (cols invalid_amount)
take_throne-ne-invalid_amount_example =
    take_throne-ne-invalid_amount (toy false) (Scenario.tx_of Scenario.bob) Scenario.bob_takes
      History.taken
