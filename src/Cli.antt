-- ===== src/Cli.antt =====
-- The command-line client: cli/src, a module for each file there.
pub mod Text
pub mod Error
pub mod Output
pub mod Pdas
pub mod Accounts
pub mod Discriminator
pub mod BorshCodec
pub mod Hex
pub mod Host
pub mod Rpc
pub mod Cmd
pub mod Main
pub mod Submit
