-- ===== src/Program/Claims.antt =====
-- Roots and payouts over histories: programs/cols/src/instructions/commit_distribution_root.rs and
-- claim_holder_fees.rs.
use kolz_protocol.Base.{
  ℕ, ◌≡◌, ◌≢◌, ◌∙◌, sym, ap, ◌⊎◌, true, some, List, [], ◌∷◌, map, length, In, subst,
}
use kolz_protocol.Bytes.{Bytes, to_le_bytes}
use kolz_protocol.Constants.{holder_claim_seed, distribution_seed}
use kolz_protocol.Errors.{ok}
use kolz_protocol.Events.{Event}
use kolz_protocol.Merkle.{root, verify_merkle_proof, compute_distribution_leaf}
use kolz_protocol.Merkle.Entries.{Entry, IsTyped, AllTyped, entry_preimage}
use kolz_protocol.Merkle.Soundness.{AllLength32, Clash, verifier_preimages}
use kolz_protocol.Merkle.Membership.{entry_leaf, builder_preimages, verify_sound}
use kolz_protocol.Runtime.{Runtime}
use kolz_protocol.State.Distribution.{Distribution}
use kolz_protocol.Chain.{Chain, Tx, distribution_account, lookup, is_fresh, find_bump}
use kolz_protocol.Chain.Checks.{load_distribution-lookup}
use kolz_protocol.Program
use kolz_protocol.Program.{Reach, next, executes, process}
use kolz_protocol.Program.History.{Reach-IsKept, genesis, genesis-AllSound}
use kolz_protocol.Instructions.ClaimHolderFees
use kolz_protocol.Instructions.ClaimHolderFees.{claim_holder_fees, try_accounts, handler}
use kolz_protocol.Instructions.ClaimHolderFees.Facts.{claim_holder_fees-Claims}
use kolz_protocol.Instructions.CommitDistributionRoot
use kolz_protocol.Instructions.CommitDistributionRoot.{commit_distribution_root}
use kolz_protocol.Instructions.CommitDistributionRoot.Facts.{commit_distribution_root-Commits}
use kolz_protocol.Program.Stored.{
  find_bump_unique, not-fresh-after, claim-stores, IsCommitted, commit-stores, IsCommitted-kept,
}

same_distribution :
    (d e : Distribution) → some (distribution_account d) ≡ some (distribution_account e) → d ≡ e
same_distribution d e h = cc

module _ {Ext : Type 0} (rt : Runtime Ext) where
  -- In any history from the empty store: once a holder has claimed for an epoch, no later claim of
  -- that holder for that epoch goes through, whatever its accounts, amount and proof.
  pub claim_once :
      (ext : Ext) {chain chain' later : Chain Ext} {event : Event} (tx tx' : Tx)
      (a b : ClaimHolderFees.Accounts) (epoch amount amount' : ℕ) (proof proof' : List Bytes)
      (after : Chain Ext) (event' : Event)
      → Reach rt (genesis ext) chain
      → claim_holder_fees rt tx a epoch amount proof chain ≡ ok (chain', event)
      → Reach rt chain' later
      → b.holder ≡ a.holder
      → claim_holder_fees rt tx' b epoch amount' proof' later ≢ ok (after, event')
  unfolding process
  claim_once ext {chain} {chain'} {later} {event} tx tx' a b epoch amount amount' proof proof' after
        event' r h s same h' =
      let (l, signers, paid, slot, f) =
        claim_holder_fees-Claims rt tx a epoch amount proof chain chain' event h in
      let (l', signers', paid', slot', f') =
        claim_holder_fees-Claims rt tx' b epoch amount' proof' later after event' h' in
      let address : b.holder_claim ≡ a.holder_claim =
        find_bump_unique rt (holder_claim_seed ∷ a.holder ∷ to_le_bytes 8 epoch ∷ []) b.holder_claim
          a.holder_claim
          (subst
            (λ k.
              find_bump rt (holder_claim_seed ∷ k ∷ to_le_bytes 8 epoch ∷ []) b.holder_claim
              ≡ ok l'.holder_claim_bump)
            same f'.checked.derived)
          f.checked.derived in
      not-fresh-after rt a.holder_claim _
        (genesis-AllSound ext
          (next r (executes tx (Program.claim_holder_fees a epoch amount proof) event h)))
        s (claim-stores rt chain chain' event tx a epoch amount proof h).1
        (subst (λ k. is_fresh later k ≡ true) address f'.checked.fresh)

  -- In any history from the empty store, a root that is committed for an epoch stays in the store,
  -- with its epoch and its pool.
  pub root_stays :
      (ext : Ext) {chain chain' later : Chain Ext} {event : Event} (tx : Tx)
      (a : CommitDistributionRoot.Accounts) (epoch : ℕ) (r : Bytes) (pool : ℕ)
      → Reach rt (genesis ext) chain
      → commit_distribution_root rt tx a epoch r pool chain ≡ ok (chain', event)
      → Reach rt chain' later
      → IsCommitted rt a.distribution epoch r pool later
  unfolding process
  root_stays ext {chain} {chain'} {later} {event} tx a epoch r pool reach h s =
      IsCommitted-kept rt a.distribution epoch r pool
        (genesis-AllSound ext
          (next reach (executes tx (Program.commit_distribution_root a epoch r pool) event h)))
        s (commit-stores rt chain chain' event tx a epoch r pool h).0

  -- In any history from the empty store a second commit for an epoch does not go through.
  pub commit_once :
      (ext : Ext) {chain chain' later : Chain Ext} {event : Event} (tx tx' : Tx)
      (a b : CommitDistributionRoot.Accounts) (epoch : ℕ) (r r' : Bytes) (pool pool' : ℕ)
      (after : Chain Ext) (event' : Event)
      → Reach rt (genesis ext) chain
      → commit_distribution_root rt tx a epoch r pool chain ≡ ok (chain', event)
      → Reach rt chain' later
      → commit_distribution_root rt tx' b epoch r' pool' later ≢ ok (after, event')
  unfolding process
  commit_once ext {chain} {chain'} {later} {event} tx tx' a b epoch r r' pool pool' after event'
        reach h s h' =
      let ((d, found, _, _, _), (bump, derived)) =
        commit-stores rt chain chain' event tx a epoch r pool h in
      let (config', bump', slot', ext'', f') =
        commit_distribution_root-Commits rt tx' b epoch r' pool' later after event' h' in
      not-fresh-after rt a.distribution (distribution_account d)
        (genesis-AllSound ext
          (next reach (executes tx (Program.commit_distribution_root a epoch r pool) event h)))
        s found
        (subst (λ k. is_fresh later k ≡ true)
          (find_bump_unique rt (distribution_seed ∷ to_le_bytes 8 epoch ∷ []) b.distribution
            a.distribution f'.checked.derived derived)
          f'.checked.fresh)

  -- In any history from the empty store, after the root of a list of typed entries was committed
  -- for an epoch: a claim of a typed holder and amount for that epoch, with a typed proof, goes
  -- through only if its entry is in the list, or two different strings, one that the builder
  -- hashed and one that the program hashed, have one hash. The hash gives 32 bytes.
  pub claim-In :
      ((b : Bytes) → length (rt.keccak b) ≡ 32)
      → (ext : Ext) {chain chain' later after : Chain Ext} {event event' : Event} (tx tx' : Tx)
        (a : CommitDistributionRoot.Accounts) (b : ClaimHolderFees.Accounts) (epoch amount pool : ℕ)
        (r : Bytes) (proof : List Bytes) (entries : List Entry)
      → AllTyped entries
      → IsTyped (record { holder = b.holder; epoch = epoch; amount = amount })
      → AllLength32 proof
      → root rt.keccak (map (entry_leaf rt.keccak) entries) ≡ some r
      → Reach rt (genesis ext) chain
      → commit_distribution_root rt tx a epoch r pool chain ≡ ok (chain', event)
      → Reach rt chain' later
      → claim_holder_fees rt tx' b epoch amount proof later ≡ ok (after, event')
      → let e : Entry = record { holder = b.holder; epoch = epoch; amount = amount } in
        In e entries
        ⊎ Clash rt.keccak
            (builder_preimages rt.keccak entries)
            (entry_preimage e ∷ verifier_preimages rt.keccak (entry_leaf rt.keccak e) proof)
  unfolding process entry_leaf
  claim-In keccak32 ext {chain} {chain'} {later} {after} {event} {event'} tx tx' a b epoch amount
        pool r proof entries ts t ps built reach h s h' =
      let before =
        next reach (executes tx (Program.commit_distribution_root a epoch r pool) event h) in
      let valid = genesis-AllSound ext before in
      let (stored, (bump, derived)) = commit-stores rt chain chain' event tx a epoch r pool h in
      let (d, found, of_epoch, of_root, _) =
        IsCommitted-kept rt a.distribution epoch r pool valid s stored in
      let (l, signers, paid, slot, f) =
        claim_holder_fees-Claims rt tx' b epoch amount proof later after event' h' in
      let at : b.distribution ≡ a.distribution =
        find_bump_unique rt (distribution_seed ∷ to_le_bytes 8 epoch ∷ []) b.distribution
          a.distribution
          (subst
            (λ n.
              find_bump rt (distribution_seed ∷ to_le_bytes 8 n ∷ []) b.distribution
              ≡ ok l.distribution.bump)
            f.checked.of_epoch
            ((Reach-IsKept s valid).sound b.distribution (distribution_account l.distribution)
              (load_distribution-lookup later b.distribution f.checked.committed)))
          derived in
      let same : l.distribution ≡ d = same_distribution l.distribution d (
        sym (load_distribution-lookup later b.distribution f.checked.committed)
        ∙ ap (λ k. lookup k later.accounts) at
        ∙ found) in
      verify_sound rt.keccak keccak32 entries
        (record { holder = b.holder; epoch = epoch; amount = amount }) proof r ts t ps built
        (subst
          (λ x.
            verify_merkle_proof rt.keccak
              (compute_distribution_leaf rt.keccak b.holder epoch amount) proof x
            ≡ true)
          (ap (λ (x : Distribution). x.root) same ∙ of_root) f.proved)
