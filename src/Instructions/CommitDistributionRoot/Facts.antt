-- ===== src/Instructions/CommitDistributionRoot/Facts.antt =====
-- What a call of `commit_distribution_root` that has gone through shows.
use kolz_protocol.Base.{ℕ, ◌<◌, ◌≡◌, inl, inr, true, some, [], ◌∷◌, arith, Option-cases}
use kolz_protocol.Bytes.{Bytes, bytes_eq, to_le_bytes}
use kolz_protocol.Constants.{distribution_seed}
use kolz_protocol.Errors.{ok, Result-cases}
use kolz_protocol.Events.{Event}
use kolz_protocol.Runtime.{Runtime}
use kolz_protocol.State.Config.{Config}
use kolz_protocol.State.Distribution
use kolz_protocol.Chain.{
  Chain, Tx, distribution_account, put, contains, load_config, is_fresh, check_signer, find_bump,
}
use kolz_protocol.Chain.Checks.{init_account-ok}
use kolz_protocol.Instructions.CommitDistributionRoot.{
  Accounts, try_accounts, commit_distribution_root,
}

module _ {Ext : Type 0} (rt : Runtime Ext) (tx : Tx) (a : Accounts) (epoch : ℕ) where
  pub record Checked (chain : Chain Ext) (bump : ℕ) (config : Config) : Type 0 where
    pub signed : contains tx.signers a.oracle ≡ true
    pub configured : load_config chain a.config ≡ ok config
    pub oracle : bytes_eq config.oracle a.oracle ≡ true
    pub fresh : is_fresh chain a.distribution ≡ true
    pub derived :
        find_bump rt (distribution_seed ∷ to_le_bytes 8 epoch ∷ []) a.distribution ≡ ok bump

  try_accounts-Checked :
      (chain : Chain Ext) (created : ℕ × Ext)
      → try_accounts rt tx a epoch chain ≡ ok created
      → (config : Config) × Checked chain created.0 config
  unfolding try_accounts check_signer
  try_accounts-Checked chain created h = elim (Result-cases (load_config chain a.config)) [
    | inl (config, e) ↦ (
      config,
      ground (
        arith,
        init_account-ok rt a.oracle (distribution_seed ∷ to_le_bytes 8 epoch ∷ []) a.distribution
            Distribution.size chain created,
      ),
    )
    | inr (x, e) ↦ absurd (ground arith)
  ]

  module _ (root : Bytes) (pool_lamports : ℕ) where
    -- A call that goes through is signed by the configured oracle, creates an account that did not
    -- exist at the address derived from the epoch, and stores the root there at the current slot.
    pub record Commits (chain chain' : Chain Ext) (config : Config) (bump slot : ℕ) (ext : Ext)
        : Type 0 where
      pub checked : Checked chain bump config
      pub funded : 0 < pool_lamports
      pub clock : rt.clock_slot ext ≡ some slot
      pub result :
          chain'
          ≡ put a.distribution
              (distribution_account
                (Distribution.initialize Distribution.default epoch root pool_lamports slot bump))
              (record chain { ext = ext })

    pub commit_distribution_root-Commits :
        (chain chain' : Chain Ext) (event : Event)
        → commit_distribution_root rt tx a epoch root pool_lamports chain ≡ ok (chain', event)
        → (config : Config) × (bump : ℕ) × (slot : ℕ) × (ext : Ext) × Commits chain chain' config
            bump slot ext
    unfolding commit_distribution_root
    commit_distribution_root-Commits chain chain' event h =
        elim (Result-cases (try_accounts rt tx a epoch chain)) [
          | inr (x, e) ↦ absurd (ground arith)
          | inl (created, e) ↦ elim (Option-cases (rt.clock_slot created.1)) [
            | inl f ↦ absurd (ground arith)
            | inr (slot, f) ↦
                let (config, checked) = try_accounts-Checked chain created e in
                (config, created.0, slot, created.1, ground arith)
          ]
        ]
