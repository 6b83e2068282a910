-- ===== src/Tests/History.antt =====
-- The chain after each instruction of the scenario.
use kolz_protocol.Base.{◌≡◌, refl, false, [], ◌∷◌}
use kolz_protocol.Bytes.{bytes_eq, bytes_le, to_le_bytes}
use kolz_protocol.Errors.{Result, ok, err}
use kolz_protocol.Events.{Event, throne_settled}
use kolz_protocol.Merkle
use kolz_protocol.Merkle.Membership.{entry_leaf}
use kolz_protocol.Utils
use kolz_protocol.State.King.{is_unclaimed}
use kolz_protocol.Chain
use kolz_protocol.Chain.{Tx, king_account}
use kolz_protocol.Instructions.InitConfig
use kolz_protocol.Instructions.BindLaunch
use kolz_protocol.Instructions.MintKolNft
use kolz_protocol.Instructions.TakeThrone
use kolz_protocol.Instructions.SettleThrone
use kolz_protocol.Instructions.CommitDistributionRoot
use kolz_protocol.Instructions.ClaimHolderFees
use kolz_protocol.Program
use kolz_protocol.Program.{Reach, here, next, executes, elsewhere, process}
use kolz_protocol.Program.History.{genesis}
use kolz_protocol.Tests.World
use kolz_protocol.Tests.World.{World, toy, toy_hash}
use kolz_protocol.Tests.Scenario

abbrev pub Ledger : Type 0
Ledger = Chain.Chain World

abbrev pub chain_of : Ledger → Result (Ledger × Event) → Ledger
chain_of old (ok (chain, event)) = chain
chain_of old (err e) = old

abbrev pub event_of : Result (Ledger × Event) → Event
event_of (ok (chain, event)) = event
event_of (err e) =
    throne_settled
      (record { pet = Scenario.pet; final_champion = Scenario.pet; take_overs = 0; slot = 0 })

-- The results of the instructions, one after the other.
abbrev pub init_result : Result (Ledger × Event)
init_result =
    process (toy false) (Scenario.tx_of Scenario.admin)
      (Program.init_config Scenario.init_accounts Scenario.oracle 250) (genesis Scenario.world)

abbrev pub initialized : Ledger
initialized = chain_of (genesis Scenario.world) init_result

abbrev pub bind_result : Result (Ledger × Event)
bind_result =
    process (toy false) (Scenario.tx_of Scenario.oracle)
      (Program.oracle_bind_pumpfun_launch Scenario.bind_accounts Scenario.kol_name) initialized

abbrev pub bound : Ledger
bound = chain_of initialized bind_result

abbrev pub mint_result : Result (Ledger × Event)
mint_result =
    process (toy false) (Scenario.tx_of Scenario.oracle)
      (Program.mint_kol_nft Scenario.mint_accounts (75 ∷ []) (75 ∷ []) (117 ∷ [])) bound

abbrev pub minted : Ledger
minted = chain_of bound mint_result

abbrev pub first_result : Result (Ledger × Event)
first_result =
    process (toy false) (Scenario.tx_of Scenario.alice) (Program.take_throne Scenario.alice_takes)
      minted

abbrev pub taken : Ledger
taken = chain_of minted first_result

abbrev pub second_result : Result (Ledger × Event)
second_result =
    process (toy false) (Scenario.tx_of Scenario.bob) (Program.take_throne Scenario.bob_takes) taken

abbrev pub retaken : Ledger
retaken = chain_of taken second_result

abbrev pub waited : Ledger
waited = record retaken { ext = Scenario.later_world }

abbrev pub settle_result : Result (Ledger × Event)
settle_result =
    process (toy false) (Scenario.tx_of Scenario.oracle)
      (Program.settle_throne Scenario.settle_accounts) waited

abbrev pub settled : Ledger
settled = chain_of waited settle_result

abbrev pub commit_result : Result (Ledger × Event)
commit_result =
    process (toy false) (Scenario.tx_of Scenario.oracle)
      (Program.commit_distribution_root (Scenario.commit_accounts 3) 3 Scenario.the_root 1_000)
      initialized

abbrev pub committed : Ledger
committed = chain_of initialized commit_result

abbrev pub claim_result : Result (Ledger × Event)
claim_result =
    process (toy false) (Scenario.tx_of Scenario.alice)
      (Program.claim_holder_fees (Scenario.claim_accounts Scenario.alice 3) 3 500
        Scenario.alice_proof)
      committed

abbrev pub claimed : Ledger
claimed = chain_of committed claim_result

pub init_runs : init_result ≡ ok (initialized, event_of init_result)
unfolding process InitConfig.init_config BindLaunch.oracle_bind_pumpfun_launch BindLaunch.bind_pet
    BindLaunch.bind_launch MintKolNft.mint_kol_nft TakeThrone.take_throne TakeThrone.move_nft
    TakeThrone.deadline TakeThrone.captured SettleThrone.settle_throne
    CommitDistributionRoot.commit_distribution_root ClaimHolderFees.claim_holder_fees
    Chain.check_signer Chain.check_mut Chain.check_program Chain.check_sysvar Chain.check_mint
    Chain.check_seeds Chain.find_bump Chain.init_account Chain.init_if_needed Chain.signers_with
    Chain.load_config Chain.load_pet Chain.load_launch Chain.load_king Chain.load_distribution
    Chain.load_token Chain.is_fresh Chain.lookup Chain.contains Chain.put Chain.insert bytes_eq
    to_le_bytes Utils.check_fee_bps Utils.check_metadata_lengths Utils.saturating_add
    Utils.checked_add is_unclaimed World.flatten World.roll World.find_token World.revoke_as
    World.owns Merkle.proof_for Merkle.root Merkle.verify_merkle_proof
    Merkle.compute_distribution_leaf Merkle.leaf_preimage Merkle.pair_preimage entry_leaf bytes_le
init_runs = refl

pub bind_runs : bind_result ≡ ok (bound, event_of bind_result)
unfolding process InitConfig.init_config BindLaunch.oracle_bind_pumpfun_launch BindLaunch.bind_pet
    BindLaunch.bind_launch MintKolNft.mint_kol_nft TakeThrone.take_throne TakeThrone.move_nft
    TakeThrone.deadline TakeThrone.captured SettleThrone.settle_throne
    CommitDistributionRoot.commit_distribution_root ClaimHolderFees.claim_holder_fees
    Chain.check_signer Chain.check_mut Chain.check_program Chain.check_sysvar Chain.check_mint
    Chain.check_seeds Chain.find_bump Chain.init_account Chain.init_if_needed Chain.signers_with
    Chain.load_config Chain.load_pet Chain.load_launch Chain.load_king Chain.load_distribution
    Chain.load_token Chain.is_fresh Chain.lookup Chain.contains Chain.put Chain.insert bytes_eq
    to_le_bytes Utils.check_fee_bps Utils.check_metadata_lengths Utils.saturating_add
    Utils.checked_add is_unclaimed World.flatten World.roll World.find_token World.revoke_as
    World.owns Merkle.proof_for Merkle.root Merkle.verify_merkle_proof
    Merkle.compute_distribution_leaf Merkle.leaf_preimage Merkle.pair_preimage entry_leaf bytes_le
bind_runs = refl

pub mint_runs : mint_result ≡ ok (minted, event_of mint_result)
unfolding process InitConfig.init_config BindLaunch.oracle_bind_pumpfun_launch BindLaunch.bind_pet
    BindLaunch.bind_launch MintKolNft.mint_kol_nft TakeThrone.take_throne TakeThrone.move_nft
    TakeThrone.deadline TakeThrone.captured SettleThrone.settle_throne
    CommitDistributionRoot.commit_distribution_root ClaimHolderFees.claim_holder_fees
    Chain.check_signer Chain.check_mut Chain.check_program Chain.check_sysvar Chain.check_mint
    Chain.check_seeds Chain.find_bump Chain.init_account Chain.init_if_needed Chain.signers_with
    Chain.load_config Chain.load_pet Chain.load_launch Chain.load_king Chain.load_distribution
    Chain.load_token Chain.is_fresh Chain.lookup Chain.contains Chain.put Chain.insert bytes_eq
    to_le_bytes Utils.check_fee_bps Utils.check_metadata_lengths Utils.saturating_add
    Utils.checked_add is_unclaimed World.flatten World.roll World.find_token World.revoke_as
    World.owns Merkle.proof_for Merkle.root Merkle.verify_merkle_proof
    Merkle.compute_distribution_leaf Merkle.leaf_preimage Merkle.pair_preimage entry_leaf bytes_le
mint_runs = refl

pub first_runs : first_result ≡ ok (taken, event_of first_result)
unfolding process InitConfig.init_config BindLaunch.oracle_bind_pumpfun_launch BindLaunch.bind_pet
    BindLaunch.bind_launch MintKolNft.mint_kol_nft TakeThrone.take_throne TakeThrone.move_nft
    TakeThrone.deadline TakeThrone.captured SettleThrone.settle_throne
    CommitDistributionRoot.commit_distribution_root ClaimHolderFees.claim_holder_fees
    Chain.check_signer Chain.check_mut Chain.check_program Chain.check_sysvar Chain.check_mint
    Chain.check_seeds Chain.find_bump Chain.init_account Chain.init_if_needed Chain.signers_with
    Chain.load_config Chain.load_pet Chain.load_launch Chain.load_king Chain.load_distribution
    Chain.load_token Chain.is_fresh Chain.lookup Chain.contains Chain.put Chain.insert bytes_eq
    to_le_bytes Utils.check_fee_bps Utils.check_metadata_lengths Utils.saturating_add
    Utils.checked_add is_unclaimed World.flatten World.roll World.find_token World.revoke_as
    World.owns Merkle.proof_for Merkle.root Merkle.verify_merkle_proof
    Merkle.compute_distribution_leaf Merkle.leaf_preimage Merkle.pair_preimage entry_leaf bytes_le
first_runs = refl

pub second_runs : second_result ≡ ok (retaken, event_of second_result)
unfolding process InitConfig.init_config BindLaunch.oracle_bind_pumpfun_launch BindLaunch.bind_pet
    BindLaunch.bind_launch MintKolNft.mint_kol_nft TakeThrone.take_throne TakeThrone.move_nft
    TakeThrone.deadline TakeThrone.captured SettleThrone.settle_throne
    CommitDistributionRoot.commit_distribution_root ClaimHolderFees.claim_holder_fees
    Chain.check_signer Chain.check_mut Chain.check_program Chain.check_sysvar Chain.check_mint
    Chain.check_seeds Chain.find_bump Chain.init_account Chain.init_if_needed Chain.signers_with
    Chain.load_config Chain.load_pet Chain.load_launch Chain.load_king Chain.load_distribution
    Chain.load_token Chain.is_fresh Chain.lookup Chain.contains Chain.put Chain.insert bytes_eq
    to_le_bytes Utils.check_fee_bps Utils.check_metadata_lengths Utils.saturating_add
    Utils.checked_add is_unclaimed World.flatten World.roll World.find_token World.revoke_as
    World.owns Merkle.proof_for Merkle.root Merkle.verify_merkle_proof
    Merkle.compute_distribution_leaf Merkle.leaf_preimage Merkle.pair_preimage entry_leaf bytes_le
second_runs = refl

pub settle_runs : settle_result ≡ ok (settled, event_of settle_result)
unfolding process InitConfig.init_config BindLaunch.oracle_bind_pumpfun_launch BindLaunch.bind_pet
    BindLaunch.bind_launch MintKolNft.mint_kol_nft TakeThrone.take_throne TakeThrone.move_nft
    TakeThrone.deadline TakeThrone.captured SettleThrone.settle_throne
    CommitDistributionRoot.commit_distribution_root ClaimHolderFees.claim_holder_fees
    Chain.check_signer Chain.check_mut Chain.check_program Chain.check_sysvar Chain.check_mint
    Chain.check_seeds Chain.find_bump Chain.init_account Chain.init_if_needed Chain.signers_with
    Chain.load_config Chain.load_pet Chain.load_launch Chain.load_king Chain.load_distribution
    Chain.load_token Chain.is_fresh Chain.lookup Chain.contains Chain.put Chain.insert bytes_eq
    to_le_bytes Utils.check_fee_bps Utils.check_metadata_lengths Utils.saturating_add
    Utils.checked_add is_unclaimed World.flatten World.roll World.find_token World.revoke_as
    World.owns Merkle.proof_for Merkle.root Merkle.verify_merkle_proof
    Merkle.compute_distribution_leaf Merkle.leaf_preimage Merkle.pair_preimage entry_leaf bytes_le
settle_runs = refl

pub commit_runs : commit_result ≡ ok (committed, event_of commit_result)
unfolding process InitConfig.init_config BindLaunch.oracle_bind_pumpfun_launch BindLaunch.bind_pet
    BindLaunch.bind_launch MintKolNft.mint_kol_nft TakeThrone.take_throne TakeThrone.move_nft
    TakeThrone.deadline TakeThrone.captured SettleThrone.settle_throne
    CommitDistributionRoot.commit_distribution_root ClaimHolderFees.claim_holder_fees
    Chain.check_signer Chain.check_mut Chain.check_program Chain.check_sysvar Chain.check_mint
    Chain.check_seeds Chain.find_bump Chain.init_account Chain.init_if_needed Chain.signers_with
    Chain.load_config Chain.load_pet Chain.load_launch Chain.load_king Chain.load_distribution
    Chain.load_token Chain.is_fresh Chain.lookup Chain.contains Chain.put Chain.insert bytes_eq
    to_le_bytes Utils.check_fee_bps Utils.check_metadata_lengths Utils.saturating_add
    Utils.checked_add is_unclaimed World.flatten World.roll World.find_token World.revoke_as
    World.owns Merkle.proof_for Merkle.root Merkle.verify_merkle_proof
    Merkle.compute_distribution_leaf Merkle.leaf_preimage Merkle.pair_preimage entry_leaf bytes_le
commit_runs = refl

pub claim_runs : claim_result ≡ ok (claimed, event_of claim_result)
unfolding process InitConfig.init_config BindLaunch.oracle_bind_pumpfun_launch BindLaunch.bind_pet
    BindLaunch.bind_launch MintKolNft.mint_kol_nft TakeThrone.take_throne TakeThrone.move_nft
    TakeThrone.deadline TakeThrone.captured SettleThrone.settle_throne
    CommitDistributionRoot.commit_distribution_root ClaimHolderFees.claim_holder_fees
    Chain.check_signer Chain.check_mut Chain.check_program Chain.check_sysvar Chain.check_mint
    Chain.check_seeds Chain.find_bump Chain.init_account Chain.init_if_needed Chain.signers_with
    Chain.load_config Chain.load_pet Chain.load_launch Chain.load_king Chain.load_distribution
    Chain.load_token Chain.is_fresh Chain.lookup Chain.contains Chain.put Chain.insert bytes_eq
    to_le_bytes Utils.check_fee_bps Utils.check_metadata_lengths Utils.saturating_add
    Utils.checked_add is_unclaimed World.flatten World.roll World.find_token World.revoke_as
    World.owns Merkle.proof_for Merkle.root Merkle.verify_merkle_proof
    Merkle.compute_distribution_leaf Merkle.leaf_preimage Merkle.pair_preimage entry_leaf bytes_le
claim_runs = refl

-- The histories that lead there.
pub to_initialized : Reach (toy false) (genesis Scenario.world) initialized
to_initialized = next here (
    executes (Scenario.tx_of Scenario.admin)
      (Program.init_config Scenario.init_accounts Scenario.oracle 250) (event_of init_result)
      init_runs)

pub to_minted : Reach (toy false) (genesis Scenario.world) minted
to_minted =
    next
      (next to_initialized
        (executes (Scenario.tx_of Scenario.oracle) _ (event_of bind_result) bind_runs))
      (executes (Scenario.tx_of Scenario.oracle) _ (event_of mint_result) mint_runs)

pub to_taken : Reach (toy false) (genesis Scenario.world) taken
to_taken =
    next to_minted (executes (Scenario.tx_of Scenario.alice) _ (event_of first_result) first_runs)

pub to_retaken : Reach (toy false) taken retaken
to_retaken =
    next here (executes (Scenario.tx_of Scenario.bob) _ (event_of second_result) second_runs)

pub to_settled : Reach (toy false) (genesis Scenario.world) settled
to_settled =
    next
      (next
        (next to_taken
          (executes (Scenario.tx_of Scenario.bob) _ (event_of second_result) second_runs))
        (elsewhere Scenario.later_world))
      (executes (Scenario.tx_of Scenario.oracle) _ (event_of settle_result) settle_runs)

pub from_initialized : Reach (toy false) initialized claimed
from_initialized =
    next
      (next here (executes (Scenario.tx_of Scenario.oracle) _ (event_of commit_result) commit_runs))
      (executes (Scenario.tx_of Scenario.alice) _ (event_of claim_result) claim_runs)

pub to_committed : Reach (toy false) (genesis Scenario.world) committed
to_committed =
    next to_initialized
      (executes (Scenario.tx_of Scenario.oracle) _ (event_of commit_result) commit_runs)

pub to_claimed : Reach (toy false) committed claimed
to_claimed =
    next here (executes (Scenario.tx_of Scenario.alice) _ (event_of claim_result) claim_runs)
