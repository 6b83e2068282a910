-- ===== src/Tests/Claimable.antt =====
-- Alice's payout in the scenario.
use kolz_protocol.Base.{◌≡◌, refl, false, map, arith}
use kolz_protocol.Bytes.{bytes_eq, to_le_bytes}
use kolz_protocol.Errors.{ok}
use kolz_protocol.Events.{holder_claimed}
use kolz_protocol.Merkle
use kolz_protocol.Merkle.Membership.{entry_leaf}
use kolz_protocol.State.HolderClaim
use kolz_protocol.Chain
use kolz_protocol.Chain.{holder_claim_account}
use kolz_protocol.Instructions.ClaimHolderFees
use kolz_protocol.Instructions.CommitDistributionRoot
use kolz_protocol.Instructions.InitConfig
use kolz_protocol.Utils
use kolz_protocol.Program.{here, process}
use kolz_protocol.Program.Claimable.{FindsDerived, CanClaim, claim_succeeds}
use kolz_protocol.Tests.World
use kolz_protocol.Tests.World.{toy, toy_hash}
use kolz_protocol.Tests.Scenario
use kolz_protocol.Tests.History
use kolz_protocol.Tests.Payouts.{root_built}

toy_finds : FindsDerived (toy false)
toy_finds seeds key bump e =
    let same : 255 ≡ bump = cc in let there : World.derive seeds 255 ≡ key = cc in cc

alice_can :
    CanClaim
      (toy false)
      (Scenario.tx_of Scenario.alice)
      (Scenario.claim_accounts Scenario.alice 3)
      3
      500
      History.committed
      255
      255
      1000
      Scenario.world
      Scenario.world
unfolding Chain.contains Chain.find_bump Chain.is_fresh Chain.lookup bytes_eq to_le_bytes World.roll
    World.flatten process CommitDistributionRoot.commit_distribution_root Chain.check_signer
    Chain.load_config InitConfig.init_config Chain.init_account Chain.check_program
    Chain.check_sysvar Chain.check_mut Utils.check_fee_bps Chain.put Chain.insert Chain.check_seeds
alice_can = record {
  signed = refl;
  holder_writable = refl;
  receipt_writable = refl;
  vault_writable = refl;
  system = refl;
  receipt = refl;
  unclaimed = refl;
  vault = refl;
  positive = omega arith;
  creates = refl;
  funded = omega arith;
  pays = refl;
  clock = refl;
}

claim_succeeds_example :
    ClaimHolderFees.claim_holder_fees
      (toy false)
      (Scenario.tx_of Scenario.alice)
      (Scenario.claim_accounts Scenario.alice 3)
      3
      500
      (Merkle.proof_for toy_hash (map (entry_leaf toy_hash) Scenario.entries) 0)
      History.committed
    ≡ ok (
      Chain.put
          (Scenario.receipt Scenario.alice 3)
          (holder_claim_account
            (HolderClaim.initialize HolderClaim.default Scenario.alice 3 500 1000 255))
          (record History.committed { ext = Scenario.world }),
      holder_claimed (record { holder = Scenario.alice; epoch = 3; amount = 500; slot = 1000 }),
    )
unfolding process
claim_succeeds_example =
    claim_succeeds (toy false) toy_finds Scenario.world (Scenario.tx_of Scenario.oracle)
      (Scenario.tx_of Scenario.alice) (Scenario.commit_accounts 3)
      (Scenario.claim_accounts Scenario.alice 3) 3 500 1_000 Scenario.the_root Scenario.entries 0
      255 255 1000 Scenario.world Scenario.world History.to_initialized History.commit_runs here
      root_built refl refl refl alice_can
