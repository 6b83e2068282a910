-- ===== src/Tests/Payouts.antt =====
-- Payouts of the scenario.
use kolz_protocol.Base.{◌≡◌, refl, ◌≢◌, ◌⊎◌, false, some, ◌∷◌, map, In, arith, replicate}
use kolz_protocol.Errors.{ok, err, cols, already_claimed}
use kolz_protocol.Merkle
use kolz_protocol.Merkle.Entries.{Entry}
use kolz_protocol.Merkle.Membership.{entry_leaf, builder_preimages}
use kolz_protocol.Instructions.CommitDistributionRoot
use kolz_protocol.Instructions.ClaimHolderFees
use kolz_protocol.Program.{here, process}
use kolz_protocol.Tests.World.{toy, toy_hash, length-toy_hash}
use kolz_protocol.Tests.Scenario
use kolz_protocol.Tests.History
use kolz_protocol.Program.Claims.{claim_once, commit_once, root_stays, claim-In}
use kolz_protocol.Program.Settlement.{claim-ne-already_claimed}
use kolz_protocol.Program.Stored.{IsCommitted}
use kolz_protocol.Merkle.Entries.{AllTyped, IsTyped, entry_preimage}
use kolz_protocol.Merkle.Soundness.{AllLength32, Clash, verifier_preimages}

abbrev alice_entry : Entry
alice_entry = record { holder = Scenario.alice; epoch = 3; amount = 500 }

claim_once_example :
    ClaimHolderFees.claim_holder_fees
      (toy false)
      (Scenario.tx_of Scenario.alice)
      (Scenario.claim_accounts Scenario.alice 3)
      3
      500
      Scenario.alice_proof
      History.claimed
    ≢ ok (History.claimed, History.event_of History.claim_result)
unfolding process
claim_once_example =
    claim_once (toy false) Scenario.world (Scenario.tx_of Scenario.alice)
      (Scenario.tx_of Scenario.alice) (Scenario.claim_accounts Scenario.alice 3)
      (Scenario.claim_accounts Scenario.alice 3) 3 500 500 Scenario.alice_proof Scenario.alice_proof
      History.claimed (History.event_of History.claim_result) History.to_committed
      History.claim_runs here refl

commit_once_example :
    CommitDistributionRoot.commit_distribution_root
      (toy false)
      (Scenario.tx_of Scenario.oracle)
      (Scenario.commit_accounts 3)
      3
      (replicate 32 1)
      9
      History.claimed
    ≢ ok (History.claimed, History.event_of History.claim_result)
unfolding process
commit_once_example =
    commit_once (toy false) Scenario.world (Scenario.tx_of Scenario.oracle)
      (Scenario.tx_of Scenario.oracle) (Scenario.commit_accounts 3) (Scenario.commit_accounts 3) 3
      Scenario.the_root (replicate 32 1) 1_000 9 History.claimed
      (History.event_of History.claim_result) History.to_initialized History.commit_runs
      History.to_claimed

root_stays_example :
    IsCommitted (toy false) (Scenario.distribution 3) 3 Scenario.the_root 1_000 History.claimed
unfolding process
root_stays_example =
    root_stays (toy false) Scenario.world (Scenario.tx_of Scenario.oracle)
      (Scenario.commit_accounts 3) 3 Scenario.the_root 1_000 History.to_initialized
      History.commit_runs History.to_claimed

pub entries_typed : AllTyped Scenario.entries
entries_typed = (
  record { key = refl; epoch_fits = omega arith; amount_fits = omega arith },
  (
    record { key = refl; epoch_fits = omega arith; amount_fits = omega arith },
    (record { key = refl; epoch_fits = omega arith; amount_fits = omega arith }, tt),
  ),
)

pub alice-IsTyped : IsTyped (record { holder = Scenario.alice; epoch = 3; amount = 500 })
alice-IsTyped = record { key = refl; epoch_fits = omega arith; amount_fits = omega arith }

pub proof_typed : AllLength32 Scenario.alice_proof
unfolding Merkle.proof_for entry_leaf
proof_typed = (refl, (refl, tt))

pub root_built :
    Merkle.root toy_hash (map (entry_leaf toy_hash) Scenario.entries) ≡ some Scenario.the_root
unfolding Merkle.root
root_built = refl

claim-In_example :
    In alice_entry Scenario.entries
    ⊎ Clash toy_hash (builder_preimages toy_hash Scenario.entries) (
        entry_preimage alice_entry
        ∷ verifier_preimages toy_hash (entry_leaf toy_hash alice_entry) Scenario.alice_proof)
unfolding process
claim-In_example =
    claim-In (toy false) length-toy_hash Scenario.world (Scenario.tx_of Scenario.oracle)
      (Scenario.tx_of Scenario.alice) (Scenario.commit_accounts 3)
      (Scenario.claim_accounts Scenario.alice 3) 3 500 1_000 Scenario.the_root Scenario.alice_proof
      Scenario.entries entries_typed alice-IsTyped proof_typed root_built History.to_initialized
      History.commit_runs here History.claim_runs

claim-ne-already_claimed_example :
    ClaimHolderFees.claim_holder_fees
      (toy false)
      (Scenario.tx_of Scenario.alice)
      (Scenario.claim_accounts Scenario.alice 3)
      3
      500
      Scenario.alice_proof
      History.claimed
    ≢ err (cols already_claimed)
claim-ne-already_claimed_example =
    claim-ne-already_claimed (toy false) (Scenario.tx_of Scenario.alice)
      (Scenario.claim_accounts Scenario.alice 3) 3 500 Scenario.alice_proof History.claimed
