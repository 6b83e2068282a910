-- ===== src/Cli/Cmd.antt =====
-- The commands: cli/src/cmd, a module for each file there.
pub mod Shared
pub mod Init
pub mod Bind
pub mod MintNft
pub mod TakeThrone
pub mod Settle
pub mod CommitRoot
pub mod Claim
pub mod Inspect
pub mod Grind
