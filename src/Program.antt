-- ===== src/Program.antt =====
-- programs/cols/src/lib.rs: the dispatch of the program's instructions.
pub mod Throne
pub mod Accounts
pub mod Evolution
pub mod History
pub mod Stored
pub mod Claims
pub mod Thrones
pub mod Oracle
pub mod Settlement
pub mod Wire
pub mod Claimable
pub mod Auction
pub mod Custody
pub mod Coin
pub mod Vault
use kolz_protocol.Base.{ℕ, ◌≡◌, List}
use kolz_protocol.Bytes.{Bytes, Pubkey}
use kolz_protocol.Errors.{Result, ok, err}
use kolz_protocol.Events.{Event}
use kolz_protocol.Runtime.{Runtime}
use kolz_protocol.Chain.{Chain, Tx}
use kolz_protocol.Instructions.InitConfig
use kolz_protocol.Instructions.BindLaunch
use kolz_protocol.Instructions.MintKolNft
use kolz_protocol.Instructions.TakeThrone
use kolz_protocol.Instructions.SettleThrone
use kolz_protocol.Instructions.CommitDistributionRoot
use kolz_protocol.Instructions.ClaimHolderFees

-- An instruction with its accounts and its arguments.
pub data Instruction : Type 0 where
  init_config : InitConfig.Accounts → Pubkey → ℕ → Instruction
  oracle_bind_pumpfun_launch : BindLaunch.Accounts → Bytes → Instruction
  mint_kol_nft : MintKolNft.Accounts → Bytes → Bytes → Bytes → Instruction
  take_throne : TakeThrone.Accounts → Instruction
  settle_throne : SettleThrone.Accounts → Instruction
  commit_distribution_root : CommitDistributionRoot.Accounts → ℕ → Bytes → ℕ → Instruction
  claim_holder_fees : ClaimHolderFees.Accounts → ℕ → ℕ → List Bytes → Instruction

module _ {Ext : Type 0} (rt : Runtime Ext) where
  unfoldable pub process : Tx → Instruction → Chain Ext → Result (Chain Ext × Event)
  process tx (init_config a oracle_authority fee_basis_points) =
      InitConfig.init_config rt tx a oracle_authority fee_basis_points
  process tx (oracle_bind_pumpfun_launch a kol_name) =
      BindLaunch.oracle_bind_pumpfun_launch rt tx a kol_name
  process tx (mint_kol_nft a name symbol uri) = MintKolNft.mint_kol_nft rt tx a name symbol uri
  process tx (take_throne a) = TakeThrone.take_throne rt tx a
  process tx (settle_throne a) = SettleThrone.settle_throne rt tx a
  process tx (commit_distribution_root a epoch root pool_lamports) =
      CommitDistributionRoot.commit_distribution_root rt tx a epoch root pool_lamports
  process tx (claim_holder_fees a epoch amount proof) =
      ClaimHolderFees.claim_holder_fees rt tx a epoch amount proof

  -- One event on the ledger: an instruction that goes through, or a change that other programs make
  -- of their own accounts. An instruction that fails leaves no trace.
  pub data Step (chain : Chain Ext) : Chain Ext → Type 0 where
    executes :
        (tx : Tx) (i : Instruction) {chain' : Chain Ext} (event : Event)
        → process tx i chain ≡ ok (chain', event)
        → Step chain chain'
    elsewhere : (ext : Ext) → Step chain (record chain { ext = ext })

  pub data Reach (chain : Chain Ext) : Chain Ext → Type 0 where
    here : Reach chain chain
    next : {c c' : Chain Ext} → Reach chain c → Step c c' → Reach chain c'
