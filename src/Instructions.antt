-- ===== src/Instructions.antt =====
-- The handlers: programs/cols/src/instructions, a module for each file there.
pub mod InitConfig
pub mod BindLaunch
pub mod MintKolNft
pub mod TakeThrone
pub mod SettleThrone
pub mod CommitDistributionRoot
pub mod ClaimHolderFees
