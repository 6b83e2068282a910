-- ===== src/Program/Vault.antt =====
-- What a payout moves: programs/cols/src/instructions/claim_holder_fees.rs, with the system program
-- as its documentation says.
use kolz_protocol.Base.{ℕ, ◌+◌, ◌-◌, ◌≤◌, ◌≡◌, ◌≢◌, ap, ◌∙◌, some, List, arith}
use kolz_protocol.Bytes.{Bytes, Pubkey}
use kolz_protocol.Errors.{ok}
use kolz_protocol.Events.{Event}
use kolz_protocol.Runtime.{Runtime}
use kolz_protocol.Chain.{Chain, Tx, put}
use kolz_protocol.Instructions.ClaimHolderFees.{Accounts, claim_holder_fees}
use kolz_protocol.Instructions.ClaimHolderFees.Facts.{claim_holder_fees-Claims}

module _ {Ext : Type 0} (rt : Runtime Ext) where
  -- The system program's Transfer between two accounts.
  pub record PaysLamports (source target : Pubkey) (amount : ℕ) (ext ext' : Ext) : Type 0 where
    pub enough : amount ≤ rt.lamports ext source
    pub out : rt.lamports ext' source ≡ rt.lamports ext source - amount
    pub into : rt.lamports ext' target ≡ rt.lamports ext target + amount
    pub others :
        (key : Pubkey) → key ≢ source → key ≢ target → rt.lamports ext' key ≡ rt.lamports ext key

  abbrev pub TransferPays : Type 0
  TransferPays =
      (source target : Pubkey) (amount : ℕ) (signers : List Pubkey) (ext ext' : Ext)
      → rt.system_transfer source target amount signers ext ≡ some ext'
      → source ≢ target
      → PaysLamports source target amount ext ext'

  -- Its CreateAccount: the payer pays for the new account, and no other account changes.
  abbrev pub CreateCharges : Type 0
  CreateCharges =
      (payer new : Pubkey) (size : ℕ) (ext ext' : Ext) (key : Pubkey)
      → rt.create_account payer new size ext ≡ some ext'
      → key ≢ new
      → (rt.lamports ext' key ≤ rt.lamports ext key)
        × (key ≢ payer → rt.lamports ext' key ≡ rt.lamports ext key)

  -- If the system program does as its documentation says: a claim that goes through takes exactly the
  -- amount out of the vault, gives the holder no more than it, and leaves the lamports of every
  -- account but the vault, the holder and the receipt alone, if vault, holder and receipt are three
  -- accounts.
  pub claim_pays :
      TransferPays
      → CreateCharges
      → (tx : Tx) (a : Accounts) (epoch amount : ℕ) (proof : List Bytes) (chain chain' : Chain Ext)
        (event : Event)
      → claim_holder_fees rt tx a epoch amount proof chain ≡ ok (chain', event)
      → a.fee_vault ≢ a.holder
      → a.fee_vault ≢ a.holder_claim
      → a.holder ≢ a.holder_claim
      → (rt.lamports chain'.ext a.fee_vault + amount ≡ rt.lamports chain.ext a.fee_vault)
        × (rt.lamports chain'.ext a.holder ≤ rt.lamports chain.ext a.holder + amount)
        × ((key : Pubkey)
            → key ≢ a.fee_vault
            → key ≢ a.holder
            → key ≢ a.holder_claim
            → rt.lamports chain'.ext key ≡ rt.lamports chain.ext key)
  unfolding put
  claim_pays transfers creates tx a epoch amount proof chain chain' event h not_holder not_receipt
        apart =
      let (l, signers, paid, slot, f) =
        claim_holder_fees-Claims rt tx a epoch amount proof chain chain' event h in
      let after : chain'.ext ≡ paid = ap (λ (c : Chain Ext). c.ext) f.result in
      let charged = λ (key : Pubkey).
        creates a.holder a.holder_claim _ chain.ext l.ext key f.checked.paid_for in
      let p = transfers a.fee_vault a.holder amount signers l.ext paid f.payment not_holder in
      let vault = (charged a.fee_vault not_receipt).1 not_holder in
      let holder = (charged a.holder apart).0 in
      (
        rw after (omega (arith, p.enough, p.out, vault)),
        rw after (omega (arith, p.into, holder)),
        λ key nv nh nr. rw after (p.others key nv nh ∙ (charged key nr).1 nh),
      )
