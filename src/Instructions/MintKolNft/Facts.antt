-- ===== src/Instructions/MintKolNft/Facts.antt =====
-- What a call of `mint_kol_nft` that has gone through shows.
use kolz_protocol.Base.{◌≤◌, ◌≡◌, inl, inr, true, false, [], ◌∷◌, arith, Option-cases}
use kolz_protocol.Bytes.{Bytes, bytes_eq, default_pubkey}
use kolz_protocol.Constants.{king_seed}
use kolz_protocol.Errors.{ok, Result-cases}
use kolz_protocol.Events.{Event}
use kolz_protocol.Runtime.{Runtime}
use kolz_protocol.State.King
use kolz_protocol.State.Config.{Config}
use kolz_protocol.State.King.{KingOfHill}
use kolz_protocol.Chain.{
  Chain, Tx, king_account, put, contains, load_config, load_launch, is_fresh, check_signer,
  init_account, signers_with, find_bump,
}
use kolz_protocol.Chain.Checks.{init_account-ok}
use kolz_protocol.Utils.{check_metadata_lengths}
use kolz_protocol.Base.{length}
use kolz_protocol.Instructions.MintKolNft.{Accounts, Loaded, try_accounts, handler, mint_kol_nft}

module _ {Ext : Type 0} (rt : Runtime Ext) (tx : Tx) (a : Accounts) where
  pub record Checked (chain : Chain Ext) (l : Loaded Ext) (config : Config) : Type 0 where
    pub signed : contains tx.signers a.oracle ≡ true
    pub configured : load_config chain a.config ≡ ok config
    pub oracle : bytes_eq config.oracle a.oracle ≡ true
    pub launched : load_launch chain a.launch ≡ ok l.launch
    pub of_pet : bytes_eq l.launch.pet a.pet ≡ true
    pub fresh : is_fresh chain a.king ≡ true
    pub derived : find_bump rt (king_seed ∷ a.pet ∷ []) a.king ≡ ok l.king_bump

  try_accounts-Checked :
      (chain : Chain Ext) (l : Loaded Ext)
      → try_accounts rt tx a chain ≡ ok l
      → (config : Config) × Checked chain l config
  unfolding try_accounts check_signer
  try_accounts-Checked chain l h = elim (Result-cases (load_config chain a.config)) [
    | inr (x, e) ↦ absurd (ground arith)
    | inl (config, e) ↦
        elim (Result-cases
          (init_account rt a.oracle (king_seed ∷ a.pet ∷ []) a.king King.size chain)) [
            | inr (x, f) ↦ absurd (ground arith)
            | inl (created, f) ↦ (
              config,
              ground (
                arith,
                init_account-ok rt a.oracle (king_seed ∷ a.pet ∷ []) a.king King.size chain created,
              ),
            )
          ]
  ]

  module _ (name symbol uri : Bytes) where
    -- A call that goes through is signed by the configured oracle, for a pet whose launch is bound,
    -- and creates a throne with no champion, which did not exist.
    pub record Mints (chain chain' : Chain Ext) (l : Loaded Ext) (config : Config) (ext : Ext)
        : Type 0 where
      pub checked : Checked chain l config
      pub short_name : length name ≤ 32
      pub short_symbol : length symbol ≤ 10
      pub short_uri : length uri ≤ 200
      pub bound : bytes_eq l.launch.pump_mint default_pubkey ≡ false
      pub result :
          chain'
          ≡ put a.king
              (king_account (
                King.initialize King.default a.pet a.nft_mint a.escrow_vault l.king_bump
                  l.escrow_bump))
              (record chain { ext = ext })

    handler-Mints :
        (chain chain' : Chain Ext) (event : Event) (l : Loaded Ext) (config : Config)
        → Checked chain l config
        → handler rt tx a name symbol uri l chain ≡ ok (chain', event)
        → (ext : Ext) × Mints chain chain' l config ext
    unfolding handler check_metadata_lengths
    handler-Mints chain chain' event l config c h =
        elim (Result-cases (signers_with rt tx (king_seed ∷ a.pet ∷ []) l.king_bump)) [
          | inr (x, e) ↦ absurd (ground arith)
          | inl (signers, e) ↦
              elim (Option-cases (rt.mint_to a.nft_mint a.escrow_vault a.king 1 signers l.ext)) [
                | inl f ↦ absurd (ground arith)
                | inr (minted, f) ↦
                    elim (Option-cases (
                      rt.create_metadata a.metadata a.nft_mint a.king a.oracle name symbol uri
                        signers minted)) [
                          | inl g ↦ absurd (ground arith)
                          | inr (named, g) ↦ elim (Option-cases (rt.clock_slot named)) [
                            | inl k ↦ absurd (ground arith)
                            | inr (slot, k) ↦ (named, ground arith)
                          ]
                        ]
              ]
        ]

    pub mint_kol_nft-Mints :
        (chain chain' : Chain Ext) (event : Event)
        → mint_kol_nft rt tx a name symbol uri chain ≡ ok (chain', event)
        → (l : Loaded Ext) × (config : Config) × (ext : Ext) × Mints chain chain' l config ext
    unfolding mint_kol_nft
    mint_kol_nft-Mints chain chain' event h = elim (Result-cases (try_accounts rt tx a chain)) [
      | inr (x, e) ↦ absurd (ground arith)
      | inl (l, e) ↦
          let (config, checked) = try_accounts-Checked chain l e in
          let (ext, mints) = handler-Mints chain chain' event l config checked (rw e at h) in
          (l, config, ext, mints)
    ]
