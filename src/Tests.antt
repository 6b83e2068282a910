-- ===== src/Tests.antt =====
-- The development's tests: a small runtime that computes, a history of the program on it, and the
-- theorems applied to that history.
pub mod World
pub mod Scenario
pub mod History
pub mod Payouts
pub mod Thrones
pub mod Authority
pub mod Trees
pub mod Limits
pub mod Codec
pub mod Client
pub mod Misplaced
pub mod Layouts
pub mod Grinding
pub mod Claimable
pub mod Auctions
pub mod Custody
pub mod Coin
pub mod Vault
