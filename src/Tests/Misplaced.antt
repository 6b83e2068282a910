-- ===== src/Tests/Misplaced.antt =====
-- The instructions of the client's commands, received by the program.
use kolz_protocol.Base.{ℕ, arith, ◌≡◌, ◌≢◌, refl, ap, false, [], ◌∷◌, replicate, ◌++◌, inr}
use kolz_protocol.Constants.{ascii, system_program_id}
use kolz_protocol.Bytes.{Bytes, bytes_eq, to_le_bytes}
use kolz_protocol.Errors.{ok}
use kolz_protocol.Cli.Error.{done}
use kolz_protocol.Cli.Text
use kolz_protocol.Cli.Output
use kolz_protocol.Cli.Pdas
use kolz_protocol.Cli.Rpc
use kolz_protocol.Cli.Submit.{keys_of, tx_of}
use kolz_protocol.Cli.Submit.TooFew
use kolz_protocol.Cli.Submit.TooFew.{prepare_of, receive_of, receive_of-too_few}
use kolz_protocol.Cli.Submit.Misplaced.{commit-misplaced, bind-misplaced}
use kolz_protocol.Cli.Submit.Undecoded
use kolz_protocol.Cli.Submit.Undecoded.{run_of, run_of-ne-done}
use kolz_protocol.Cli.Host.{Host}
use kolz_protocol.Cli.Discriminator
use kolz_protocol.Cli.Cmd.Shared
use kolz_protocol.Cli.Cmd.Bind
use kolz_protocol.Cli.Cmd.CommitRoot
use kolz_protocol.Cli.Cmd.Claim
use kolz_protocol.Program.Wire
use kolz_protocol.Tests.World
use kolz_protocol.Tests.World.{toy, key}
use kolz_protocol.Tests.Scenario
use kolz_protocol.Tests.History
use kolz_protocol.Tests.Codec.{toy_borsh-IsBorsh}
use kolz_protocol.Tests.Client
use kolz_protocol.Tests.Client.{Prepared, host, cli, instruction_of, report_of}

abbrev Ready : Prepared → Type 0
Ready p = p ≡ done (instruction_of p, report_of p)

bind-Ready : Ready Client.bind_prepared
unfolding Bind.prepare Shared.kol_name_bytes
bind-Ready = refl

commit-Ready : Ready Client.commit_prepared
unfolding CommitRoot.prepare Text.trim_0x Output.fmt_hex32 Text.is_continuation Text.hex_pair
commit-Ready = refl

claim-Ready : Ready Client.claim_prepared
unfolding Claim.prepare Text.trim_0x Output.fmt_hex32 Text.is_continuation Text.hex_pair
claim-Ready = refl

receive_of-too_few_example :
    receive_of
      (toy false)
      (tx_of (instruction_of Client.claim_prepared).accounts)
      (keys_of (instruction_of Client.claim_prepared).accounts)
      (TooFew.claim Client.claim_args 3 500 Scenario.alice_proof)
      History.committed
    ≢ ok (History.claimed, History.event_of History.claim_result)
unfolding prepare_of
receive_of-too_few_example =
    receive_of-too_few (toy false) host cli (instruction_of Client.claim_prepared)
      (report_of Client.claim_prepared) History.committed
      (History.claimed, History.event_of History.claim_result)
      (TooFew.claim Client.claim_args 3 500 Scenario.alice_proof) claim-Ready

abbrev first_byte : Bytes → ℕ
first_byte [] = 0
first_byte (b ∷ bytes) = b

fee_vault_differs : (Pdas.fee_vault host.find_program_address cli.program_id).0 ≢ system_program_id
unfolding Pdas.fee_vault World.roll World.flatten
fee_vault_differs e = omega (arith, ap first_byte e)

commit-misplaced_example :
    Wire.receive_commit
      (toy false)
      (tx_of (instruction_of Client.commit_prepared).accounts)
      (keys_of (instruction_of Client.commit_prepared).accounts)
      3
      (replicate 32 171)
      1_000
      History.initialized
    ≢ ok (History.committed, History.event_of History.commit_result)
commit-misplaced_example =
    commit-misplaced (toy false) host cli (instruction_of Client.commit_prepared)
      (report_of Client.commit_prepared) History.initialized
      (History.committed, History.event_of History.commit_result) Client.commit_args 3 1_000
      (replicate 32 171) commit-Ready fee_vault_differs

name_encoded : Shared.kol_name_bytes (ascii "kol") ≡ done Scenario.kol_name
unfolding Shared.kol_name_bytes
name_encoded = refl

-- The client on a network that has thrones with their padding.
abbrev padded : Bytes
padded = Client.throne_bytes ++ replicate 5 0

abbrev padded_host : Host
padded_host = record host { get_account = λ k. inr (record { owner = key 99; content = padded }) }

run_of-ne-done_example :
    run_of padded_host cli (Undecoded.settle Client.settle_args)
    ≢ done (report_of Client.settle_prepared (ascii "signature"))
unfolding Pdas.king Pdas.pet Rpc.get_program_account Rpc.parse_pubkey bytes_eq to_le_bytes
    World.roll Discriminator.account
run_of-ne-done_example =
    run_of-ne-done padded_host cli Scenario.kol_owner Scenario.kol_name padded
      (report_of Client.settle_prepared (ascii "signature")) (Undecoded.settle Client.settle_args)
      toy_borsh-IsBorsh refl name_encoded refl refl

bind-misplaced_example :
    Wire.receive_bind
      (toy false)
      (tx_of (instruction_of Client.bind_prepared).accounts)
      (keys_of (instruction_of Client.bind_prepared).accounts)
      Scenario.kol_name
      History.initialized
    ≢ ok (History.bound, History.event_of History.bind_result)
unfolding Pdas.launch Pdas.pet World.roll World.flatten Rpc.parse_pubkey
bind-misplaced_example =
    bind-misplaced (toy false) host cli (instruction_of Client.bind_prepared)
      (report_of Client.bind_prepared) History.initialized
      (History.bound, History.event_of History.bind_result) Client.bind_args Scenario.kol_owner
      Scenario.pump_mint Scenario.kol_name Scenario.kol_name refl refl name_encoded bind-Ready
      (λ e. omega (arith, ap first_byte e)) (λ e. omega (arith, ap first_byte e))
      (λ e. omega (arith, ap first_byte e))
