-- ===== src/Instructions/SettleThrone/Facts.antt =====
-- What a call of `settle_throne` that has gone through shows.
use kolz_protocol.Base.{
  ℕ, ◌≤◌, ◌≡◌, ◌≢◌, inl, inr, true, false, some, List, [], ◌∷◌, arith, Option-cases,
}
use kolz_protocol.Bytes.{Pubkey, bytes_eq}
use kolz_protocol.Constants.{king_seed}
use kolz_protocol.Errors.{ok, Result-cases}
use kolz_protocol.Events.{Event}
use kolz_protocol.Runtime.{Runtime, TokenAccount}
use kolz_protocol.State.Config.{Config}
use kolz_protocol.State.King.{KingOfHill}
use kolz_protocol.Chain.{
  Chain, Tx, king_account, put, contains, load_config, load_king, load_token, check_signer,
  signers_with,
}
use kolz_protocol.Instructions.SettleThrone.{Accounts, try_accounts, settle_throne}

module _ {Ext : Type 0} (rt : Runtime Ext) (tx : Tx) (a : Accounts) where
  pub record Checked (chain : Chain Ext) (king : KingOfHill) (config : Config)
      (champion_nft : TokenAccount) : Type 0 where
    pub signed : contains tx.signers a.oracle ≡ true
    pub configured : load_config chain a.config ≡ ok config
    pub oracle : bytes_eq config.oracle a.oracle ≡ true
    pub throne : load_king chain a.king ≡ ok king
    pub nft_account : load_token rt chain.ext a.champion_nft_ata ≡ ok champion_nft
    pub of_champion : bytes_eq champion_nft.owner king.current_champion ≡ true

  try_accounts-Checked :
      (chain : Chain Ext) (king : KingOfHill)
      → try_accounts rt tx a chain ≡ ok king
      → (config : Config) × (champion_nft : TokenAccount) × Checked chain king config champion_nft
  unfolding try_accounts check_signer
  try_accounts-Checked chain king h = elim (Result-cases (load_config chain a.config)) [
    | inr (x, e) ↦ absurd (ground arith)
    | inl (config, e) ↦ elim (Result-cases (load_token rt chain.ext a.champion_nft_ata)) [
      | inr (x, f) ↦ absurd (ground arith)
      | inl (champion_nft, f) ↦ (config, champion_nft, ground arith)
    ]
  ]

  -- A call that goes through is signed by the configured oracle, at or after the deadline of a
  -- throne that was captured and not settled, and marks the throne settled.
  pub record Settles (chain chain' : Chain Ext) (king : KingOfHill) (config : Config)
      (champion_nft : TokenAccount) (slot : ℕ) (signers : List Pubkey) (revoked : Ext)
      : Type 0 where
    pub checked : Checked chain king config champion_nft
    pub unsettled : king.settled ≡ false
    pub captured : king.settles_at_slot ≢ 0
    pub clock : rt.clock_slot chain.ext ≡ some slot
    pub over : king.settles_at_slot ≤ slot
    pub revocation : rt.revoke a.champion_nft_ata a.king signers chain.ext ≡ some revoked
    pub result :
        chain'
        ≡ put a.king
            (king_account (record king { settled = true }))
            (record chain { ext = revoked })

  pub settle_throne-Settles :
      (chain chain' : Chain Ext) (event : Event)
      → settle_throne rt tx a chain ≡ ok (chain', event)
      → (king : KingOfHill) × (config : Config) × (champion_nft : TokenAccount) × (slot : ℕ)
        × (signers : List Pubkey) × (revoked : Ext) × Settles chain chain' king config champion_nft
            slot signers revoked
  unfolding settle_throne
  settle_throne-Settles chain chain' event h = elim (Result-cases (try_accounts rt tx a chain)) [
    | inr (x, e) ↦ absurd (ground arith)
    | inl (king, e) ↦ elim (Option-cases (rt.clock_slot chain.ext)) [
      | inl f ↦ absurd (ground arith)
      | inr (slot, f) ↦
          elim (Result-cases (signers_with rt tx (king_seed ∷ a.pet ∷ []) king.bump)) [
            | inr (x, g) ↦ absurd (ground arith)
            | inl (signers, g) ↦
                elim (Option-cases (rt.revoke a.champion_nft_ata a.king signers chain.ext)) [
                  | inl k ↦ absurd (ground arith)
                  | inr (revoked, k) ↦
                      let (config, champion_nft, checked) = try_accounts-Checked chain king e in
                      (king, config, champion_nft, slot, signers, revoked, ground arith)
                ]
          ]
    ]
  ]
