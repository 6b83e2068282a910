-- ===== src/Program/Settlement.antt =====
-- The call of the token program in programs/cols/src/instructions/settle_throne.rs, and the errors of
-- take_throne.rs and claim_holder_fees.rs.
use kolz_protocol.Base.{ℕ, ◌≡◌, ◌≢◌, sym, ◌∙◌, some, List, arith}
use kolz_protocol.Bytes.{Bytes, Pubkey}
use kolz_protocol.Bytes.Order.{bytes_eq→≡}
use kolz_protocol.Errors.{ok, err, cols, invalid_amount, already_claimed}
use kolz_protocol.Events.{Event}
use kolz_protocol.Runtime.{Runtime, TokenAccount}
use kolz_protocol.State.King.{KingOfHill}
use kolz_protocol.Chain.{
  Chain, Tx, king_account, lookup, load_token, load_king, load_pet, load_launch, load_config,
  load_distribution, check_signer, check_mut, check_program, check_seeds, check_mint, init_account,
  find_bump, signers_with,
}
use kolz_protocol.Chain.Checks.{load_king-lookup}
use kolz_protocol.Instructions.TakeThrone
use kolz_protocol.Instructions.TakeThrone.{take_throne, move_nft, deadline, captured}
use kolz_protocol.Instructions.SettleThrone
use kolz_protocol.Instructions.SettleThrone.{settle_throne}
use kolz_protocol.Instructions.SettleThrone.Facts.{settle_throne-Settles}
use kolz_protocol.Instructions.ClaimHolderFees
use kolz_protocol.Instructions.ClaimHolderFees.{claim_holder_fees}

-- The token program's documented rule: only the owner of a token account may revoke its delegate.
abbrev pub RevokeNeedsOwner : {Ext : Type 0} → Runtime Ext → Type 0
RevokeNeedsOwner {Ext} rt =
    (account authority : Pubkey) (signers : List Pubkey) (ext ext' : Ext) (t : TokenAccount)
    → rt.revoke account authority signers ext ≡ some ext'
    → rt.token_account ext account ≡ some t
    → t.owner ≡ authority

module _ {Ext : Type 0} (rt : Runtime Ext) where
  -- If only the owner of a token account may revoke its delegate: no call settles a throne whose
  -- champion is any key but the throne's own address.
  pub settle_needs_own_champion :
      RevokeNeedsOwner rt
      → (chain chain' : Chain Ext) (event : Event) (tx : Tx) (a : SettleThrone.Accounts)
        (k : KingOfHill)
      → lookup a.king chain.accounts ≡ some (king_account k)
      → k.current_champion ≢ a.king
      → settle_throne rt tx a chain ≢ ok (chain', event)
  unfolding load_token
  settle_needs_own_champion owner_only chain chain' event tx a k found other h =
      let (king, config, nft, slot, signers, revoked, f) =
        settle_throne-Settles rt tx a chain chain' event h in
      let owner =
        owner_only a.champion_nft_ata a.king signers chain.ext revoked nft f.revocation
          (ground arith) in
      let champion = bytes_eq→≡ nft.owner king.current_champion f.checked.of_champion in
      let was = load_king-lookup chain a.king f.checked.throne in
      other (sym (ap_champion king k (sym was ∙ found)) ∙ sym champion ∙ owner)
    where
      ap_champion :
          (j l : KingOfHill)
          → some (king_account j) ≡ some (king_account l)
          → j.current_champion ≡ l.current_champion
      ap_champion j l e = cc

  -- A claim never fails with `AlreadyClaimed`.
  pub claim-ne-already_claimed :
      (tx : Tx) (a : ClaimHolderFees.Accounts) (epoch amount : ℕ) (proof : List Bytes)
      (chain : Chain Ext)
      → claim_holder_fees rt tx a epoch amount proof chain ≢ err (cols already_claimed)
  unfolding claim_holder_fees check_signer check_mut check_program check_seeds init_account
      find_bump load_config load_distribution signers_with
  claim-ne-already_claimed tx a epoch amount proof chain h = ground arith

  -- A capture never fails with `InvalidAmount`.
  pub take_throne-ne-invalid_amount :
      (tx : Tx) (a : TakeThrone.Accounts) (chain : Chain Ext)
      → take_throne rt tx a chain ≢ err (cols invalid_amount)
  unfolding take_throne check_signer check_mut check_program check_seeds load_config load_pet
      load_launch load_king load_token check_mint move_nft deadline signers_with captured
  take_throne-ne-invalid_amount tx a chain h = ground arith
