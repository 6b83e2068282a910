-- ===== src/Program/Claimable.antt =====
-- When a payout goes through: programs/cols/src/instructions/claim_holder_fees.rs on a root that the
-- builder in programs/cols/src/utils.rs made.
use kolz_protocol.Base.{
  ℕ, zero, suc, ◌≡◌, ◌≤◌, ◌<◌, ap, subst, ◌∙◌, true, some, List, [], ◌∷◌, ◌++◌, map, get_elem?,
  arith,
}
use kolz_protocol.Bytes.{Bytes, Pubkey, bytes_eq, to_le_bytes}
use kolz_protocol.Bytes.Order.{bytes_eq→≡, bytes_eq_refl}
use kolz_protocol.Constants.{
  config_seed, distribution_seed, holder_claim_seed, fee_vault_seed, system_program_id,
}
use kolz_protocol.Errors.{ok}
use kolz_protocol.Events.{Event, holder_claimed}
use kolz_protocol.Merkle.{root, verify_merkle_proof, compute_distribution_leaf, proof_for}
use kolz_protocol.Merkle.Entries.{Entry}
use kolz_protocol.Merkle.Membership.{entry_leaf}
use kolz_protocol.Merkle.Completeness.{verify-proof_for}
use kolz_protocol.Runtime.{Runtime}
use kolz_protocol.State.Config.{Config}
use kolz_protocol.State.Distribution.{Distribution}
use kolz_protocol.State.HolderClaim
use kolz_protocol.Chain.{
  Chain, Tx, config_account, distribution_account, holder_claim_account, lookup, put, contains,
  is_fresh, find_bump, load_config, load_distribution, check_signer, check_mut, check_program,
  check_seeds, is_derived, init_account, signers_with,
}
use kolz_protocol.Chain.Checks.{load_config-lookup}
use kolz_protocol.Program
use kolz_protocol.Program.{Reach, here, next, executes, process}
use kolz_protocol.Program.History.{Reach-IsKept, genesis, genesis-AllSound}
use kolz_protocol.Program.Stored.{commit-stores, IsCommitted-kept}
use kolz_protocol.Instructions.ClaimHolderFees
use kolz_protocol.Instructions.ClaimHolderFees.{claim_holder_fees}
use kolz_protocol.Instructions.CommitDistributionRoot
use kolz_protocol.Instructions.CommitDistributionRoot.{commit_distribution_root}
use kolz_protocol.Instructions.CommitDistributionRoot.Facts.{commit_distribution_root-Commits}

module _ {Ext : Type 0} (rt : Runtime Ext) where
  -- Solana's rule of derived addresses: the seeds with the bump that was found give the address back.
  abbrev pub FindsDerived : Type 0
  FindsDerived =
      (seeds : List Bytes) (key : Pubkey) (bump : ℕ)
      → rt.find_program_address seeds ≡ (key, bump)
      → rt.create_program_address (seeds ++ (bump ∷ []) ∷ []) ≡ some key

  find_bump-is_derived :
      (seeds : List Bytes) (key : Pubkey) (bump : ℕ)
      → FindsDerived
      → find_bump rt seeds key ≡ ok bump
      → rt.create_program_address (seeds ++ (bump ∷ []) ∷ []) ≡ some key
  unfolding find_bump
  find_bump-is_derived seeds key bump law h =
      law seeds key bump (ground (arith, bytes_eq→≡ (rt.find_program_address seeds).0 key))

  -- What a claim asks of its transaction, its accounts but for the root, and the other programs: the
  -- states that they pass through are `created` and `paid`.
  pub record CanClaim (tx : Tx) (a : ClaimHolderFees.Accounts) (epoch amount : ℕ)
      (chain : Chain Ext) (bump vault_bump slot : ℕ) (created paid : Ext) : Type 0 where
    pub signed : contains tx.signers a.holder ≡ true
    pub holder_writable : contains tx.writable a.holder ≡ true
    pub receipt_writable : contains tx.writable a.holder_claim ≡ true
    pub vault_writable : contains tx.writable a.fee_vault ≡ true
    pub system : a.system_program ≡ system_program_id
    pub receipt :
        find_bump rt (holder_claim_seed ∷ a.holder ∷ to_le_bytes 8 epoch ∷ []) a.holder_claim
        ≡ ok bump
    pub unclaimed : is_fresh chain a.holder_claim ≡ true
    pub vault : find_bump rt (fee_vault_seed ∷ []) a.fee_vault ≡ ok vault_bump
    pub positive : 0 < amount
    pub creates :
        rt.create_account a.holder a.holder_claim HolderClaim.size chain.ext ≡ some created
    pub funded : amount ≤ rt.lamports created a.fee_vault
    pub pays :
        rt.system_transfer a.fee_vault a.holder amount (a.fee_vault ∷ tx.signers) created
        ≡ some paid
    pub clock : rt.clock_slot paid ≡ some slot

  module _ (law : FindsDerived) (tx : Tx) (a : ClaimHolderFees.Accounts) (epoch amount : ℕ)
      (chain : Chain Ext) (bump vault_bump slot : ℕ) (created paid : Ext) where
    claim_accepts :
        (proof : List Bytes) (config : Config) (d : Distribution)
        → CanClaim tx a epoch amount chain bump vault_bump slot created paid
        → load_config chain a.config ≡ ok config
        → is_derived rt (config_seed ∷ []) config.bump a.config ≡ true
        → load_distribution chain a.distribution ≡ ok d
        → is_derived rt (distribution_seed ∷ to_le_bytes 8 epoch ∷ []) d.bump a.distribution ≡ true
        → d.epoch ≡ epoch
        → verify_merkle_proof rt.keccak
            (compute_distribution_leaf rt.keccak a.holder epoch amount)
            proof
            d.root
          ≡ true
        → claim_holder_fees rt tx a epoch amount proof chain
          ≡ ok (
            put a.holder_claim
                (holder_claim_account
                  (HolderClaim.initialize HolderClaim.default a.holder epoch amount slot bump))
                (record chain { ext = paid }),
            holder_claimed
                (record { holder = a.holder; epoch = epoch; amount = amount; slot = slot }),
          )
    unfolding claim_holder_fees check_signer check_mut check_program check_seeds init_account
        signers_with
    claim_accepts proof config d c found at there of same proved =
        let vault = find_bump-is_derived (fee_vault_seed ∷ []) a.fee_vault vault_bump law c.vault in
        let sys : bytes_eq a.system_program system_program_id ≡ true =
          rw c.system (bytes_eq_refl system_program_id) in
        ground arith

  is_derived-find_bump :
      (seeds : List Bytes) (key : Pubkey) (bump : ℕ)
      → FindsDerived
      → find_bump rt seeds key ≡ ok bump
      → is_derived rt seeds bump key ≡ true
  unfolding is_derived
  is_derived-find_bump seeds key bump law h =
      rw (find_bump-is_derived seeds key bump law h, is_derived) (bytes_eq_refl key)

  lookup-load_config :
      (chain : Chain Ext) (key : Pubkey) (c : Config)
      → lookup key chain.accounts ≡ some (config_account c)
      → load_config chain key ≡ ok c
  unfolding load_config
  lookup-load_config chain key c h = ground arith

  lookup-load_distribution :
      (chain : Chain Ext) (key : Pubkey) (d : Distribution)
      → lookup key chain.accounts ≡ some (distribution_account d)
      → load_distribution chain key ≡ ok d
  unfolding load_distribution
  lookup-load_distribution chain key d h = ground arith

  get_elem?-map :
      (entries : List Entry) (i : ℕ) (e : Entry)
      → get_elem? entries i ≡ some e
      → get_elem? (map (entry_leaf rt.keccak) entries) i ≡ some (entry_leaf rt.keccak e)
  get_elem?-map [] i e h = cc
  get_elem?-map (x ∷ xs) zero e h = cc
  get_elem?-map (x ∷ xs) (suc i) e h = get_elem?-map xs i e h

  -- The builder's proof, at the root that it was built for.
  proved_at :
      (entries : List Entry) (i : ℕ) (e : Entry) (r : Bytes)
      → get_elem? entries i ≡ some e
      → root rt.keccak (map (entry_leaf rt.keccak) entries) ≡ some r
      → verify_merkle_proof rt.keccak
          (entry_leaf rt.keccak e)
          (proof_for rt.keccak (map (entry_leaf rt.keccak) entries) i)
          r
        ≡ true
  proved_at entries i e r h built =
      let (r', built', proved) =
        verify-proof_for rt.keccak (map (entry_leaf rt.keccak) entries) i (entry_leaf rt.keccak e)
          (get_elem?-map entries i e h) in
      let same : r' ≡ r = cc in
      subst
        (λ x.
          verify_merkle_proof rt.keccak (entry_leaf rt.keccak e)
            (proof_for rt.keccak (map (entry_leaf rt.keccak) entries) i) x
          ≡ true)
        same proved

  -- In any history from the empty store, if derived addresses come back from their seeds: once the
  -- root of a list of entries is committed for an epoch, the holder of any entry of the list, with
  -- the builder's proof for it, is paid its amount, and the receipt is stored, at any later time at
  -- which it has not claimed, if the amount is not zero, the vault has it, the transaction names the
  -- derived accounts, with the holder's signature and all of holder, receipt and vault writable, and
  -- the other programs do what they are asked.
  pub claim_succeeds :
      FindsDerived
      → (ext : Ext) {chain chain' later : Chain Ext} {event : Event} (tx tx' : Tx)
        (a : CommitDistributionRoot.Accounts) (b : ClaimHolderFees.Accounts) (epoch amount pool : ℕ)
        (r : Bytes) (entries : List Entry) (i bump vault_bump slot : ℕ) (created paid : Ext)
      → Reach rt (genesis ext) chain
      → commit_distribution_root rt tx a epoch r pool chain ≡ ok (chain', event)
      → Reach rt chain' later
      → root rt.keccak (map (entry_leaf rt.keccak) entries) ≡ some r
      → get_elem? entries i ≡ some (record { holder = b.holder; epoch = epoch; amount = amount })
      → b.config ≡ a.config
      → b.distribution ≡ a.distribution
      → CanClaim tx' b epoch amount later bump vault_bump slot created paid
      → claim_holder_fees rt tx' b epoch amount
          (proof_for rt.keccak (map (entry_leaf rt.keccak) entries) i)
          later
        ≡ ok (
          put b.holder_claim
              (holder_claim_account
                (HolderClaim.initialize HolderClaim.default b.holder epoch amount slot bump))
              (record later { ext = paid }),
          holder_claimed
              (record { holder = b.holder; epoch = epoch; amount = amount; slot = slot }),
        )
  unfolding process entry_leaf
  claim_succeeds law ext {chain} {chain'} {later} {event} tx tx' a b epoch amount pool r entries i
        bump vault_bump slot created paid reach h s built listed same_config same_root can =
      let (config, _, _, _, f) =
        commit_distribution_root-Commits rt tx a epoch r pool chain chain' event h in
      let step = executes tx (Program.commit_distribution_root a epoch r pool) event h in
      let before = Reach-IsKept (next here step) (genesis-AllSound ext reach) in
      let kept = Reach-IsKept s before.sound in
      let (mid, found, e) =
        before.keeps a.config (config_account config)
          (load_config-lookup chain a.config f.checked.configured) in
      let (new, found', e') = kept.keeps a.config (config_account config) (found ∙ ap some e) in
      let there = found' ∙ ap some e' in
      let (stored, _) = commit-stores rt chain chain' event tx a epoch r pool h in
      let (d, at, of_epoch, of_root, _) =
        IsCommitted-kept rt a.distribution epoch r pool before.sound s stored in
      let derived =
        subst
          (λ n. find_bump rt (distribution_seed ∷ to_le_bytes 8 n ∷ []) a.distribution ≡ ok d.bump)
          of_epoch (kept.sound a.distribution (distribution_account d) at) in
      claim_accepts law tx' b epoch amount later bump vault_bump slot created paid
        (proof_for rt.keccak (map (entry_leaf rt.keccak) entries) i) config d can
        (rw same_config (lookup-load_config later a.config config there))
        (rw same_config (
          is_derived-find_bump (config_seed ∷ []) a.config config.bump law
            (kept.sound a.config (config_account config) there)))
        (rw same_root (lookup-load_distribution later a.distribution d at))
        (rw same_root (
          is_derived-find_bump (distribution_seed ∷ to_le_bytes 8 epoch ∷ []) a.distribution d.bump
            law derived))
        of_epoch
        (rw of_root (
          proved_at entries i (record { holder = b.holder; epoch = epoch; amount = amount }) r
            listed built))
