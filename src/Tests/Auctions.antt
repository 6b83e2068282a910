-- ===== src/Tests/Auctions.antt =====
-- Bob's capture of Alice's throne as a move of the auction, and the builder's loop on the scenario's
-- leaves.
use kolz_protocol.Base.{◌≤◌, ◌≡◌, false, List, map, length, arith}
use kolz_protocol.Bytes.{Bytes}
use kolz_protocol.Merkle
use kolz_protocol.Merkle.Membership.{entry_leaf}
use kolz_protocol.Merkle.Termination.{Runs, build_tree-Runs, length-proof_for}
use kolz_protocol.Program
use kolz_protocol.Program.{executes, process}
use kolz_protocol.Program.Auction.{phase}
use kolz_protocol.Program.Auction.Refinement.{Happens, Step-Happens}
use kolz_protocol.Tests.World.{toy, toy_hash}
use kolz_protocol.Tests.Scenario
use kolz_protocol.Tests.History

Step-Happens_example :
    Happens
      (toy false)
      History.taken
      (phase History.taken Scenario.king)
      (phase History.retaken Scenario.king)
Step-Happens_example = Step-Happens (toy false) Scenario.world Scenario.king History.to_taken (
    executes (Scenario.tx_of Scenario.bob) (Program.take_throne Scenario.bob_takes)
      (History.event_of History.second_result) History.second_runs)

abbrev leaves : List Bytes
leaves = map (entry_leaf toy_hash) Scenario.entries

build_tree-Runs_example :
    Runs toy_hash leaves (Merkle.build_tree toy_hash leaves)
    × ((levels : List (List Bytes))
        → Runs toy_hash leaves levels
        → levels ≡ Merkle.build_tree toy_hash leaves)
build_tree-Runs_example = build_tree-Runs toy_hash leaves (λ e. cc)

length-proof_for_example : length (Merkle.proof_for toy_hash leaves 2) ≤ 2
length-proof_for_example = length-proof_for toy_hash leaves 2 2 (omega arith)
