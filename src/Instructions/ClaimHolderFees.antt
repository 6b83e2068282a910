-- ===== src/Instructions/ClaimHolderFees.antt =====
-- programs/cols/src/instructions/claim_holder_fees.rs
pub mod Facts
use kolz_protocol.Base.{ℕ, List, [], ◌∷◌, ltb, leb, ◌==◌}
use kolz_protocol.Bytes.{Bytes, Pubkey, to_le_bytes}
use kolz_protocol.Constants.{
  config_seed, distribution_seed, holder_claim_seed, fee_vault_seed, system_program_id,
}
use kolz_protocol.Errors.{
  Result, ok, ◌>>=◌, ◌>>◌, require, ok_or, call_failed, invalid_amount, already_claimed,
  invalid_proof, insufficient_vault, epoch_not_committed,
}
use kolz_protocol.Events.{Event, holder_claimed}
use kolz_protocol.Runtime.{Runtime}
use kolz_protocol.State.HolderClaim
use kolz_protocol.State.Distribution.{Distribution}
use kolz_protocol.State.HolderClaim.{HolderClaim}
use kolz_protocol.Merkle.{compute_distribution_leaf, verify_merkle_proof}
use kolz_protocol.Chain.{
  Chain, Tx, holder_claim_account, put, load_config, load_distribution, check_signer, check_mut,
  check_program, check_seeds, find_bump, init_account, signers_with,
}

-- The keys that the instruction is given, in the order of the declaration.
pub record Accounts : Type 0 where
  pub holder : Pubkey
  pub config : Pubkey
  pub distribution : Pubkey
  pub holder_claim : Pubkey
  pub fee_vault : Pubkey
  pub system_program : Pubkey

-- What the handler reads: the committed root, the receipt as `init` leaves it, the two bumps, and
-- the state of the other programs once the receipt is created.
pub record Loaded (Ext : Type 0) : Type 0 where
  pub distribution : Distribution
  pub holder_claim : HolderClaim
  pub holder_claim_bump : ℕ
  pub fee_vault_bump : ℕ
  pub ext : Ext

module _ {Ext : Type 0} (rt : Runtime Ext) (tx : Tx) (a : Accounts) (epoch : ℕ) where
  -- `#[derive(Accounts)]` of `ClaimHolderFees`.
  unfoldable pub try_accounts : Chain Ext → Result (Loaded Ext)
  try_accounts chain = do
    check_signer tx a.holder
    config ← load_config chain a.config
    distribution ← load_distribution chain a.distribution
    check_program system_program_id a.system_program
    created ←
        init_account rt a.holder (holder_claim_seed ∷ a.holder ∷ to_le_bytes 8 epoch ∷ [])
          a.holder_claim HolderClaim.size chain
    check_mut tx a.holder_claim
    check_mut tx a.holder
    check_seeds rt (config_seed ∷ []) config.bump a.config
    check_seeds rt (distribution_seed ∷ to_le_bytes 8 epoch ∷ []) distribution.bump a.distribution
    require (distribution.epoch == epoch) epoch_not_committed
    fee_vault_bump ← find_bump rt (fee_vault_seed ∷ []) a.fee_vault
    check_mut tx a.fee_vault
    ok (record {
      distribution = distribution;
      holder_claim = HolderClaim.default;
      holder_claim_bump = created.0;
      fee_vault_bump = fee_vault_bump;
      ext = created.1;
    })

  module _ (amount : ℕ) (proof : List Bytes) where
    unfoldable pub handler : Loaded Ext → Chain Ext → Result (Chain Ext × Event)
    handler l chain = do
      require (ltb 0 amount) invalid_amount
      require (l.holder_claim.amount_claimed == 0) already_claimed
      let leaf = compute_distribution_leaf rt.keccak a.holder epoch amount
      require (verify_merkle_proof rt.keccak leaf proof l.distribution.root) invalid_proof
      let vault_lamports = rt.lamports l.ext a.fee_vault
      require (leb amount vault_lamports) insufficient_vault
      signers ← signers_with rt tx (fee_vault_seed ∷ []) l.fee_vault_bump
      paid ← ok_or (rt.system_transfer a.fee_vault a.holder amount signers l.ext) call_failed
      slot ← ok_or (rt.clock_slot paid) call_failed
      ok (
        put a.holder_claim
            (holder_claim_account (
              HolderClaim.initialize l.holder_claim a.holder epoch amount slot l.holder_claim_bump))
            (record chain { ext = paid }),
        holder_claimed (record { holder = a.holder; epoch = epoch; amount = amount; slot = slot }),
      )

    unfoldable pub claim_holder_fees : Chain Ext → Result (Chain Ext × Event)
    unfolding try_accounts handler
    claim_holder_fees chain = do loaded ← try_accounts chain; handler loaded chain
