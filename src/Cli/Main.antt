-- ===== src/Cli/Main.antt =====
-- cli/src/main.rs: the commands and their dispatch. Parsing the arguments is clap's.
use kolz_protocol.Base.{ℕ, Bool}
use kolz_protocol.Cli.Text.{Text}
use kolz_protocol.Cli.Error.{CliResult, done, fail, panic, ◌>>=◌}
use kolz_protocol.Cli.Output.{Report}
use kolz_protocol.Cli.Host.{Host}
use kolz_protocol.Cli.Rpc.{Cli, commitment_level_from_str, new_cli}
use kolz_protocol.Cli.Cmd.Init
use kolz_protocol.Cli.Cmd.Bind
use kolz_protocol.Cli.Cmd.MintNft
use kolz_protocol.Cli.Cmd.TakeThrone
use kolz_protocol.Cli.Cmd.Settle
use kolz_protocol.Cli.Cmd.CommitRoot
use kolz_protocol.Cli.Cmd.Claim
use kolz_protocol.Cli.Cmd.Inspect
use kolz_protocol.Cli.Cmd.Grind

pub data Command : Type 0 where
  init : Init.Args → Command
  bind : Bind.Args → Command
  mint_nft : MintNft.Args → Command
  take_throne : TakeThrone.Args → Command
  settle : Settle.Args → Command
  commit_root : CommitRoot.Args → Command
  claim : Claim.Args → Command
  inspect : Inspect.Target → Command
  grind : Grind.Args → Command

pub record Root : Type 0 where
  pub keypair : Text
  pub program_id : Text
  pub commitment : Text
  pub json : Bool
  pub cmd : Command

module _ (host : Host) where
  unfoldable pub build_cli : Text → Text → Text → CliResult Cli
  unfolding commitment_level_from_str new_cli
  build_cli keypair program_id commitment = do
    level ← commitment_level_from_str commitment
    new_cli host keypair program_id level

  -- The grinder's threads hand over the clock's text and what they share at the end.
  unfoldable pub run_with : (Text × Grind.Shared) → Command → Cli → CliResult Report
  unfolding Init.run Bind.run MintNft.run TakeThrone.run Settle.run CommitRoot.run Claim.run
      Inspect.run Grind.run
  run_with joined (init args) cli = Init.run host cli args
  run_with joined (bind args) cli = Bind.run host cli args
  run_with joined (mint_nft args) cli = MintNft.run host cli args
  run_with joined (take_throne args) cli = TakeThrone.run host cli args
  run_with joined (settle args) cli = Settle.run host cli args
  run_with joined (commit_root args) cli = CommitRoot.run host cli args
  run_with joined (claim args) cli = Claim.run host cli args
  run_with joined (inspect target) cli = Inspect.run host cli target
  run_with joined (grind args) cli = Grind.run host args joined.0 joined.1

  -- Every command but `grind` needs the context.
  unfoldable pub dispatch_command :
      (Text × Grind.Shared) → Command → CliResult Cli → CliResult Report
  unfolding run_with Grind.run
  dispatch_command joined (grind args) context = Grind.run host args joined.0 joined.1
  dispatch_command joined command context = context >>= run_with joined command

  unfoldable pub dispatch : (Text × Grind.Shared) → Root → CliResult Report
  unfolding build_cli dispatch_command
  dispatch joined root =
      dispatch_command joined root.cmd (build_cli root.keypair root.program_id root.commitment)

-- The exit code of the process; a panic's is Rust's.
unfoldable pub exit_code : CliResult Report → ℕ
exit_code (done report) = 0
exit_code (fail error) = 1
exit_code panic = 101
