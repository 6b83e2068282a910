-- ===== src/Tests/Authority.antt =====
-- The oracle of the scenario.
use kolz_protocol.Base.{◌≡◌, ◌≢◌, true, false}
use kolz_protocol.Errors.{ok}
use kolz_protocol.Chain.{contains}
use kolz_protocol.Instructions.InitConfig
use kolz_protocol.Program
use kolz_protocol.Program.{Reach, here, next, executes, process}
use kolz_protocol.Tests.World.{toy}
use kolz_protocol.Tests.Scenario
use kolz_protocol.Tests.History
use kolz_protocol.Program.Oracle.{only_oracle, init_once}
use kolz_protocol.Program.Accounts.{AllSound}
use kolz_protocol.Program.History.{genesis-AllSound}

genesis-AllSound_example : AllSound (toy false) History.settled
genesis-AllSound_example = genesis-AllSound Scenario.world History.to_settled

only_oracle_example : contains (Scenario.tx_of Scenario.oracle).signers Scenario.oracle ≡ true
unfolding process
only_oracle_example =
    only_oracle (toy false) Scenario.world (Scenario.tx_of Scenario.admin)
      (Scenario.tx_of Scenario.oracle) Scenario.init_accounts Scenario.oracle 250
      (Program.commit_distribution_root (Scenario.commit_accounts 3) 3 Scenario.the_root 1_000)
      History.committed (History.event_of History.commit_result) here History.init_runs here tt
      History.commit_runs

init_once_example :
    InitConfig.init_config
      (toy false)
      (Scenario.tx_of Scenario.bob)
      Scenario.init_accounts
      Scenario.bob
      0
      History.claimed
    ≢ ok (History.claimed, History.event_of History.claim_result)
unfolding process
init_once_example =
    init_once (toy false) Scenario.world (Scenario.tx_of Scenario.admin)
      (Scenario.tx_of Scenario.bob) Scenario.init_accounts Scenario.init_accounts Scenario.oracle
      Scenario.bob 250 0 History.claimed (History.event_of History.claim_result) here
      History.init_runs History.from_initialized
