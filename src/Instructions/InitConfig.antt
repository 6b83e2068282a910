-- ===== src/Instructions/InitConfig.antt =====
-- programs/cols/src/instructions/init_config.rs
pub mod Facts
use kolz_protocol.Base.{ℕ, [], ◌∷◌}
use kolz_protocol.Bytes.{Pubkey}
use kolz_protocol.Constants.{config_seed, fee_vault_seed, system_program_id}
use kolz_protocol.Errors.{Result, ok, ◌>>=◌, ◌>>◌, ok_or, call_failed}
use kolz_protocol.Events.{Event, config_initialized}
use kolz_protocol.Runtime.{Runtime}
use kolz_protocol.State.Config
use kolz_protocol.State.Config.{Config}
use kolz_protocol.Chain.{
  Chain, Tx, config_account, put, check_signer, check_mut, check_program, find_bump, init_account,
}
use kolz_protocol.Utils.{check_fee_bps}

-- The keys that the instruction is given, in the order of the declaration.
pub record Accounts : Type 0 where
  pub admin : Pubkey
  pub config : Pubkey
  pub fee_vault : Pubkey
  pub system_program : Pubkey

module _ {Ext : Type 0} (rt : Runtime Ext) (tx : Tx) (a : Accounts) where
  -- `#[derive(Accounts)]` of `InitConfig`; gives the new account's bump.
  unfoldable pub try_accounts : Chain Ext → Result (ℕ × Ext)
  try_accounts chain = do
    check_signer tx a.admin
    check_program system_program_id a.system_program
    created ← init_account rt a.admin (config_seed ∷ []) a.config Config.size chain
    check_mut tx a.config
    check_mut tx a.admin
    fee_vault_bump ← find_bump rt (fee_vault_seed ∷ []) a.fee_vault
    check_mut tx a.fee_vault
    ok created

  module _ (oracle_authority : Pubkey) (fee_basis_points : ℕ) where
    unfoldable pub handler : ℕ → Chain Ext → Result (Chain Ext × Event)
    handler bump chain = do
      check_fee_bps fee_basis_points
      let cfg = Config.initialize Config.default a.admin oracle_authority fee_basis_points bump
      slot ← ok_or (rt.clock_slot chain.ext) call_failed
      ok (
        put a.config (config_account cfg) chain,
        config_initialized (record {
          admin = cfg.admin;
          oracle = cfg.oracle;
          fee_basis_points = cfg.fee_basis_points;
          slot = slot;
        }),
      )

    unfoldable pub init_config : Chain Ext → Result (Chain Ext × Event)
    unfolding try_accounts handler
    init_config chain = do
      created ← try_accounts chain
      handler created.0 (record chain { ext = created.1 })
