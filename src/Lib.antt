-- ===== src/Lib.antt =====
-- A model of the COLS program (programs/cols/src), an Anchor program for Solana, and of its
-- command-line client (cli/src), and the theorems about them.
--
-- The program. An admin registers an oracle (`init_config`). The oracle binds a pet, a name of its
-- owner, to the launch of a coin (`oracle_bind_pumpfun_launch`) and mints the pet's throne, whose
-- token is an NFT in escrow (`mint_kol_nft`). Whoever holds more of the coin than the champion did
-- takes the throne (`take_throne`) until a settlement period has passed since the first capture;
-- then the oracle settles it (`settle_throne`). Apart from that the oracle commits a Merkle root of
-- payouts for an epoch (`commit_distribution_root`), and holders claim against it
-- (`claim_holder_fees`). The client builds the transactions of these instructions, decodes and shows
-- the accounts, and grinds key pairs whose address ends with a given suffix.
--
-- The files, and the code they model (a bare file name is one of programs/cols/src):
-- - Constants, Errors, Events: constants.rs, errors.rs, events.rs.
-- - State.Config, .Pet, .Launch, .King, .Distribution, .HolderClaim: the accounts of state/, each a
--   record with its `initialize`, its `default` (Rust's derived one) and its `size`.
-- - Utils: the names, limits and slots of utils.rs; Utils.Names and Utils.Limits prove about them.
-- - Merkle: the leaf, the verifier and the off-chain builder of utils.rs. Merkle.Steps and
--   .Completeness are about the builder's proofs, .Forest, .Entries, .Soundness and .Membership
--   about what an accepted proof says, .Termination about the builder's loop.
-- - Runtime: the calls that leave the program, a record of functions that every definition takes:
--   the hash, the derived addresses, the clock, lamports, and the system, token, associated token
--   and metadata programs, with their state as a type `Ext`. None is defined here.
-- - Chain: the store of the program's accounts, and the checks that `#[derive(Accounts)]` stands
--   for: signers, writability, types, seeds, `init`, `init_if_needed`.
-- - Instructions.X: instructions/x.rs. `Accounts` has the keys in the order of the declaration,
--   `try_accounts` runs the declared checks (account types first, then constraints, in order),
--   `handler` is the handler, and the function named like the instruction is both. An instruction
--   gives the new chain and its event, or an error. X/Facts has what follows when it goes through.
-- - Program: lib.rs. `process` dispatches; `Step` is an instruction that goes through or a change
--   that other programs make of their own state, and `Reach` a history of steps. Program.Throne,
--   .Accounts, .Evolution and .History carry the invariant through every step; .Stored, .Claims,
--   .Thrones, .Oracle and .Settlement have the properties.
-- - Program.Wire: the accounts of a transaction, taken and checked one after the other.
--   Program.Claimable is about payouts that go through. Program.Auction is the abstract view of a
--   throne, an ascending auction with a deadline; Program.Auction.Moves and .Refinement relate the
--   program to it.
--   Program.Custody is about the throne's token, Program.Coin about the coin it is won with,
--   Program.Vault about the lamports of a payout.
-- - Borsh: the layouts of primitive values, a parameter with the laws that the format documents.
--   State.Layout and Chain.Data: the bytes of the accounts, and their sizes.
-- - Cli.Text, .Error, .Output, .Discriminator, .Pdas, .Rpc, .Main: strings as UTF-8 bytes, and the
--   files error.rs, output.rs, discriminator.rs, pdas.rs, rpc.rs and main.rs of cli/src.
-- - Cli.Accounts, .BorshCodec: borsh_codec.rs. Cli.Hex: `decode_hex32` of commit_root.rs and claim.rs.
-- - Cli.Host: what the client calls and does not implement, a record of functions that every command
--   takes: the SDK, the network, the file system, the formats of floats. What the network answers
--   during one command is a function of what it is asked.
-- - Cli.Cmd.X: cmd/x.rs. `prepare` is the command up to the sending, `run` the whole; its answer is the
--   table that `render` gets. Cli.Cmd.Grind has the threads as a step relation, one step for each
--   access to what they share; a test of the flag may see an old value, since the loads are relaxed.
-- - Cli.Submit: the client's instructions as the program receives them, and the commands on a throne
--   as the program creates it.
-- - Base, Bytes: lists, options, tests, byte arrays and little-endian words.
-- - Tests: a runtime that computes, a history on it, and the properties at work there.
--
-- Numbers are natural numbers; the code's sums on words are saturating or checked, and are modelled
-- so (`u64_bound`, `u32_bound`). The builder's loop `while current.len() > 1` has the number of
-- leaves for fuel: a round at least removes one node, so that this many rounds are enough.
--
-- A number has no more decimal digits than it is large, and one at least, which is the fuel of
-- `show_number`.
--
-- Not modelled: rent, log messages, compute limits, the order in which Anchor reports errors where two
-- checks fail at once in one account, and the decoding of an instruction's arguments. Of the client:
-- the parsing of arguments (clap), the printing of a table, the JSON of `--json`, the messages of
-- errors, and a grinder thread that panics. The TypeScript SDK, the tests and the examples are
-- not modelled; the SDK is another language's mirror of the program.
pub mod Base
pub mod Bytes
pub mod Constants
pub mod Errors
pub mod Utils
pub mod State
pub mod Events
pub mod Borsh
pub mod Runtime
pub mod Chain
pub mod Instructions
pub mod Program
pub mod Merkle
pub mod Cli
pub mod Tests
