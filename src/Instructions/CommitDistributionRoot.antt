-- ===== src/Instructions/CommitDistributionRoot.antt =====
-- programs/cols/src/instructions/commit_distribution_root.rs
pub mod Facts
use kolz_protocol.Base.{ℕ, [], ◌∷◌, ltb}
use kolz_protocol.Bytes.{Bytes, Pubkey, bytes_eq, to_le_bytes}
use kolz_protocol.Constants.{config_seed, distribution_seed, system_program_id}
use kolz_protocol.Errors.{
  Result, ok, ◌>>=◌, ◌>>◌, require, ok_or, call_failed, oracle_mismatch, invalid_amount,
}
use kolz_protocol.Events.{Event, distribution_committed}
use kolz_protocol.Runtime.{Runtime}
use kolz_protocol.State.Distribution
use kolz_protocol.State.Distribution.{Distribution}
use kolz_protocol.Chain.{
  Chain, Tx, distribution_account, put, load_config, check_signer, check_mut, check_program,
  check_seeds, init_account,
}

-- The keys that the instruction is given, in the order of the declaration.
pub record Accounts : Type 0 where
  pub oracle : Pubkey
  pub config : Pubkey
  pub distribution : Pubkey
  pub system_program : Pubkey

module _ {Ext : Type 0} (rt : Runtime Ext) (tx : Tx) (a : Accounts) (epoch : ℕ) where
  -- `#[derive(Accounts)]` of `CommitDistributionRoot`; gives the new account's bump.
  unfoldable pub try_accounts : Chain Ext → Result (ℕ × Ext)
  try_accounts chain = do
    check_signer tx a.oracle
    config ← load_config chain a.config
    check_program system_program_id a.system_program
    created ←
        init_account rt a.oracle (distribution_seed ∷ to_le_bytes 8 epoch ∷ []) a.distribution
          Distribution.size chain
    check_mut tx a.distribution
    check_mut tx a.oracle
    check_seeds rt (config_seed ∷ []) config.bump a.config
    require (bytes_eq config.oracle a.oracle) oracle_mismatch
    ok created

  module _ (root : Bytes) (pool_lamports : ℕ) where
    unfoldable pub handler : ℕ → Chain Ext → Result (Chain Ext × Event)
    handler bump chain = do
      require (ltb 0 pool_lamports) invalid_amount
      slot ← ok_or (rt.clock_slot chain.ext) call_failed
      ok (
        put a.distribution
            (distribution_account
              (Distribution.initialize Distribution.default epoch root pool_lamports slot bump))
            chain,
        distribution_committed
            (record { epoch = epoch; root = root; pool_lamports = pool_lamports; slot = slot }),
      )

    unfoldable pub commit_distribution_root : Chain Ext → Result (Chain Ext × Event)
    unfolding try_accounts handler
    commit_distribution_root chain = do
      created ← try_accounts chain
      handler created.0 (record chain { ext = created.1 })
