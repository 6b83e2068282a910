-- ===== src/Program/Stored.antt =====
-- The accounts that claims and commits leave in the store, over histories.
use kolz_protocol.Base.{ℕ, ◌≡◌, refl, ◌≢◌, ◌∙◌, ap, true, some, List, [], ◌∷◌, arith}
use kolz_protocol.Bytes.{Bytes, Pubkey, to_le_bytes}
use kolz_protocol.Bytes.Order.{bytes_eq→≡, bytes_eq_refl}
use kolz_protocol.Constants.{distribution_seed}
use kolz_protocol.Errors.{ok}
use kolz_protocol.Events.{Event}
use kolz_protocol.Runtime.{Runtime}
use kolz_protocol.State.Distribution
use kolz_protocol.State.Distribution.{Distribution}
use kolz_protocol.State.HolderClaim
use kolz_protocol.State.HolderClaim.{HolderClaim}
use kolz_protocol.Chain.{
  Chain, Tx, Account, distribution_account, holder_claim_account, lookup, put, is_fresh, find_bump,
}
use kolz_protocol.Chain.Lookup.{lookup-insert}
use kolz_protocol.Chain.Checks.{is_fresh-lookup}
use kolz_protocol.Program.{Reach}
use kolz_protocol.Program.Accounts.{AllSound}
use kolz_protocol.Program.History.{Reach-IsKept}
use kolz_protocol.Instructions.ClaimHolderFees
use kolz_protocol.Instructions.ClaimHolderFees.{claim_holder_fees, try_accounts, handler}
use kolz_protocol.Instructions.ClaimHolderFees.Facts.{claim_holder_fees-Claims}
use kolz_protocol.Instructions.CommitDistributionRoot
use kolz_protocol.Instructions.CommitDistributionRoot.{commit_distribution_root}
use kolz_protocol.Instructions.CommitDistributionRoot.Facts.{commit_distribution_root-Commits}

module _ {Ext : Type 0} (rt : Runtime Ext) where
  -- One set of seeds gives one address.
  pub find_bump_unique :
      (seeds : List Bytes) (k j : Pubkey) {b c : ℕ}
      → find_bump rt seeds k ≡ ok b
      → find_bump rt seeds j ≡ ok c
      → k ≡ j
  unfolding find_bump
  find_bump_unique seeds k j p q = ground (
    arith,
    bytes_eq→≡ (rt.find_program_address seeds).0 k,
    bytes_eq→≡ (rt.find_program_address seeds).0 j,
  )

  lookup-put :
      (chain : Chain Ext) (at : Pubkey) (account : Account)
      → lookup at (put at account chain).accounts ≡ some account
  unfolding put
  lookup-put chain at account =
      lookup-insert at at account chain.accounts ∙ rw (bytes_eq_refl at) refl

  -- After a history that began with the account there, the account is not fresh.
  pub not-fresh-after :
      {chain chain' : Chain Ext} (at : Pubkey) (old : Account)
      → AllSound rt chain
      → Reach rt chain chain'
      → lookup at chain.accounts ≡ some old
      → is_fresh chain' at ≢ true
  not-fresh-after {chain' = chain'} at old valid r found fresh =
      let (new, found', e) = (Reach-IsKept r valid).keeps at old found in
      absurd (ground (arith, is_fresh-lookup chain' at fresh))

  pub stores :
      (chain chain' : Chain Ext) (at : Pubkey) (account : Account)
      → chain' ≡ put at account chain
      → lookup at chain'.accounts ≡ some account
  stores chain chain' at account e = rw e (lookup-put chain at account)

  pub claim-stores :
      (chain chain' : Chain Ext) (event : Event) (tx : Tx) (a : ClaimHolderFees.Accounts)
      (epoch amount : ℕ) (proof : List Bytes)
      → claim_holder_fees rt tx a epoch amount proof chain ≡ ok (chain', event)
      → (r : HolderClaim) × (lookup a.holder_claim chain'.accounts ≡ some (holder_claim_account r))
  claim-stores chain chain' event tx a epoch amount proof h =
      let (l, signers, paid, slot, f) =
        claim_holder_fees-Claims rt tx a epoch amount proof chain chain' event h in
      (
        HolderClaim.initialize HolderClaim.default a.holder epoch amount slot l.holder_claim_bump,
        stores (record chain { ext = paid }) chain' a.holder_claim _ f.result,
      )

  -- The record that a commit stores.
  abbrev pub IsCommitted : Pubkey → ℕ → Bytes → ℕ → Chain Ext → Type 0
  IsCommitted key epoch r pool chain =
      (d : Distribution) × (lookup key chain.accounts ≡ some (distribution_account d))
      × (d.epoch ≡ epoch)
      × (d.root ≡ r)
      × (d.pool_lamports ≡ pool)

  pub commit-stores :
      (chain chain' : Chain Ext) (event : Event) (tx : Tx) (a : CommitDistributionRoot.Accounts)
      (epoch : ℕ) (r : Bytes) (pool : ℕ)
      → commit_distribution_root rt tx a epoch r pool chain ≡ ok (chain', event)
      → IsCommitted a.distribution epoch r pool chain'
        × ((bump : ℕ) × (find_bump rt (distribution_seed ∷ to_le_bytes 8 epoch ∷ []) a.distribution
              ≡ ok bump))
  commit-stores chain chain' event tx a epoch r pool h =
      let (config, bump, slot, ext, f) =
        commit_distribution_root-Commits rt tx a epoch r pool chain chain' event h in
      (
        (
          Distribution.initialize Distribution.default epoch r pool slot bump,
          stores (record chain { ext = ext }) chain' a.distribution _ f.result,
          refl,
          refl,
          refl,
        ),
        (bump, f.checked.derived),
      )

  -- A committed record stays.
  pub IsCommitted-kept :
      {chain chain' : Chain Ext} (key : Pubkey) (epoch : ℕ) (r : Bytes) (pool : ℕ)
      → AllSound rt chain
      → Reach rt chain chain'
      → IsCommitted key epoch r pool chain
      → IsCommitted key epoch r pool chain'
  IsCommitted-kept key epoch r pool valid s (d, found, p, q, w) =
      let (new, found', e) = (Reach-IsKept s valid).keeps key (distribution_account d) found in
      (d, found' ∙ ap some e, p, q, w)
