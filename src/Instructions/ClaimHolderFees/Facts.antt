-- ===== src/Instructions/ClaimHolderFees/Facts.antt =====
-- What a call of `claim_holder_fees` that has gone through shows.
use kolz_protocol.Base.{ℕ, ◌<◌, ◌≤◌, ◌≡◌, inl, inr, true, some, List, [], ◌∷◌, arith, Option-cases}
use kolz_protocol.Bytes.{Bytes, Pubkey, to_le_bytes}
use kolz_protocol.Constants.{distribution_seed, holder_claim_seed, fee_vault_seed}
use kolz_protocol.Errors.{ok, Result-cases}
use kolz_protocol.Events.{Event}
use kolz_protocol.Merkle.{compute_distribution_leaf, verify_merkle_proof}
use kolz_protocol.Runtime.{Runtime}
use kolz_protocol.State.HolderClaim
use kolz_protocol.Chain.{
  Chain, Tx, holder_claim_account, put, contains, load_distribution, is_fresh, check_signer,
  check_seeds, is_derived, signers_with, find_bump,
}
use kolz_protocol.Chain.Checks.{init_account-ok}
use kolz_protocol.Instructions.ClaimHolderFees.{
  Accounts, Loaded, try_accounts, handler, claim_holder_fees,
}

module _ {Ext : Type 0} (rt : Runtime Ext) (tx : Tx) (a : Accounts) (epoch : ℕ) where
  pub record Checked (chain : Chain Ext) (l : Loaded Ext) : Type 0 where
    pub signed : contains tx.signers a.holder ≡ true
    pub committed : load_distribution chain a.distribution ≡ ok l.distribution
    pub committed_at :
        is_derived rt
          (distribution_seed ∷ to_le_bytes 8 epoch ∷ [])
          l.distribution.bump
          a.distribution
        ≡ true
    pub of_epoch : l.distribution.epoch ≡ epoch
    pub fresh : is_fresh chain a.holder_claim ≡ true
    pub receipt : l.holder_claim ≡ HolderClaim.default
    pub derived :
        find_bump rt (holder_claim_seed ∷ a.holder ∷ to_le_bytes 8 epoch ∷ []) a.holder_claim
        ≡ ok l.holder_claim_bump
    pub vault : find_bump rt (fee_vault_seed ∷ []) a.fee_vault ≡ ok l.fee_vault_bump
    pub paid_for : rt.create_account a.holder a.holder_claim HolderClaim.size chain.ext ≡ some l.ext

  try_accounts-Checked :
      (chain : Chain Ext) (l : Loaded Ext)
      → try_accounts rt tx a epoch chain ≡ ok l
      → Checked chain l
  unfolding try_accounts check_signer check_seeds
  try_accounts-Checked chain l h = ground (
    arith,
    init_account-ok rt a.holder (holder_claim_seed ∷ a.holder ∷ to_le_bytes 8 epoch ∷ [])
        a.holder_claim HolderClaim.size chain (l.holder_claim_bump, l.ext),
  )

  module _ (amount : ℕ) (proof : List Bytes) where
    -- A call that goes through is signed by the holder, creates a receipt that did not exist at the
    -- address derived from the holder and the epoch, shows a proof that the committed root of the
    -- epoch accepts, and pays the amount out of the vault.
    pub record Claims (chain chain' : Chain Ext) (l : Loaded Ext) (signers : List Pubkey)
        (paid : Ext) (slot : ℕ) : Type 0 where
      pub checked : Checked chain l
      pub positive : 0 < amount
      pub proved :
          verify_merkle_proof rt.keccak
            (compute_distribution_leaf rt.keccak a.holder epoch amount)
            proof
            l.distribution.root
          ≡ true
      pub funded : amount ≤ rt.lamports l.ext a.fee_vault
      pub payment : rt.system_transfer a.fee_vault a.holder amount signers l.ext ≡ some paid
      pub clock : rt.clock_slot paid ≡ some slot
      pub result :
          chain'
          ≡ put a.holder_claim
              (holder_claim_account (
                HolderClaim.initialize HolderClaim.default a.holder epoch amount slot
                  l.holder_claim_bump))
              (record chain { ext = paid })

    handler-Claims :
        (chain chain' : Chain Ext) (event : Event) (l : Loaded Ext)
        → Checked chain l
        → handler rt tx a epoch amount proof l chain ≡ ok (chain', event)
        → (signers : List Pubkey) × (paid : Ext) × (slot : ℕ) × Claims chain chain' l signers paid
            slot
    unfolding handler
    handler-Claims chain chain' event l c h =
        elim (Result-cases (signers_with rt tx (fee_vault_seed ∷ []) l.fee_vault_bump)) [
          | inr (x, e) ↦ absurd (ground arith)
          | inl (signers, e) ↦
              elim (Option-cases (rt.system_transfer a.fee_vault a.holder amount signers l.ext)) [
                | inl f ↦ absurd (ground arith)
                | inr (paid, f) ↦ elim (Option-cases (rt.clock_slot paid)) [
                  | inl g ↦ absurd (ground arith)
                  | inr (slot, g) ↦ (signers, paid, slot, ground arith)
                ]
              ]
        ]

    pub claim_holder_fees-Claims :
        (chain chain' : Chain Ext) (event : Event)
        → claim_holder_fees rt tx a epoch amount proof chain ≡ ok (chain', event)
        → (l : Loaded Ext) × (signers : List Pubkey) × (paid : Ext) × (slot : ℕ) × Claims chain
            chain' l signers paid slot
    unfolding claim_holder_fees
    claim_holder_fees-Claims chain chain' event h =
        elim (Result-cases (try_accounts rt tx a epoch chain)) [
          | inr (x, e) ↦ absurd (ground arith)
          | inl (l, e) ↦
              let (signers, paid, slot, claims) =
                handler-Claims chain chain' event l (try_accounts-Checked chain l e) (rw e at h) in
              (l, signers, paid, slot, claims)
        ]
