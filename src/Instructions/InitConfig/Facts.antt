-- ===== src/Instructions/InitConfig/Facts.antt =====
-- What a call of `init_config` that has gone through shows.
use kolz_protocol.Base.{ℕ, ◌≤◌, ◌≡◌, inl, inr, true, [], ◌∷◌, arith, Option-cases}
use kolz_protocol.Bytes.{Pubkey}
use kolz_protocol.Constants.{config_seed}
use kolz_protocol.Errors.{ok, Result-cases}
use kolz_protocol.Events.{Event}
use kolz_protocol.Runtime.{Runtime}
use kolz_protocol.State.Config
use kolz_protocol.State.Config.{Config}
use kolz_protocol.Chain.{
  Chain, Tx, config_account, put, contains, is_fresh, check_signer, find_bump,
}
use kolz_protocol.Chain.Checks.{init_account-ok}
use kolz_protocol.Utils.{check_fee_bps}
use kolz_protocol.Instructions.InitConfig.{Accounts, try_accounts, init_config}

module _ {Ext : Type 0} (rt : Runtime Ext) (tx : Tx) (a : Accounts) where
  pub record Checked (chain : Chain Ext) (bump : ℕ) : Type 0 where
    pub signed : contains tx.signers a.admin ≡ true
    pub fresh : is_fresh chain a.config ≡ true
    pub derived : find_bump rt (config_seed ∷ []) a.config ≡ ok bump

  try_accounts-Checked :
      (chain : Chain Ext) (created : ℕ × Ext)
      → try_accounts rt tx a chain ≡ ok created
      → Checked chain created.0
  unfolding try_accounts check_signer
  try_accounts-Checked chain created h =
      ground
        (arith, init_account-ok rt a.admin (config_seed ∷ []) a.config Config.size chain created)

  module _ (oracle_authority : Pubkey) (fee_basis_points : ℕ) where
    -- A call that goes through is signed by the admin, creates the one config account, which did
    -- not exist, and stores the oracle and a fee of at most 10000 basis points.
    pub record Inits (chain chain' : Chain Ext) (bump : ℕ) (ext : Ext) : Type 0 where
      pub checked : Checked chain bump
      pub fee : fee_basis_points ≤ 10_000
      pub result :
          chain'
          ≡ put a.config
              (config_account
                (Config.initialize Config.default a.admin oracle_authority fee_basis_points bump))
              (record chain { ext = ext })

    pub init_config-Inits :
        (chain chain' : Chain Ext) (event : Event)
        → init_config rt tx a oracle_authority fee_basis_points chain ≡ ok (chain', event)
        → (bump : ℕ) × (ext : Ext) × Inits chain chain' bump ext
    unfolding init_config check_fee_bps
    init_config-Inits chain chain' event h = elim (Result-cases (try_accounts rt tx a chain)) [
      | inr (x, e) ↦ absurd (ground arith)
      | inl (created, e) ↦ elim (Option-cases (rt.clock_slot created.1)) [
        | inl f ↦ absurd (ground arith)
        | inr (slot, f) ↦
            let checked = try_accounts-Checked chain created e in
            (created.0, created.1, ground arith)
      ]
    ]
