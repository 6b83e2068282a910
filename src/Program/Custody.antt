-- ===== src/Program/Custody.antt =====
-- Where the throne's NFT goes: programs/cols/src/instructions/take_throne.rs, with the token program
-- as its documentation says.
use kolz_protocol.Base.{
  ℕ, ◌+◌, ◌-◌, ◌≤◌, ◌≡◌, ◌≢◌, ap, sym, subst, ◌∙◌, ◌⊎◌, inl, inr, true, false, some, List, [], ◌∷◌,
  if◌then◌else◌, arith, Bool-cases,
}
use kolz_protocol.Bytes.{Pubkey, bytes_eq}
use kolz_protocol.Bytes.Order.{bytes_eq→≡}
use kolz_protocol.Errors.{ok, Result-cases}
use kolz_protocol.Events.{Event}
use kolz_protocol.Runtime.{Runtime, TokenAccount}
use kolz_protocol.State.King.{KingOfHill, is_unclaimed}
use kolz_protocol.Constants.{king_seed, king_escrow_seed}
use kolz_protocol.Chain.{Chain, Tx, load_king, load_token, signers_with, put}
use kolz_protocol.Instructions.TakeThrone.{
  Accounts, Loaded, try_accounts, move_nft, handler, take_throne,
}
use kolz_protocol.Instructions.TakeThrone.Facts.{take_throne-Captures}

module _ {Ext : Type 0} (rt : Runtime Ext) where
  -- The token program's Transfer between two accounts: the source has the amount, and it goes to the
  -- target.
  abbrev pub TransferMoves : Type 0
  TransferMoves =
      (source target authority : Pubkey) (amount : ℕ) (signers : List Pubkey) (ext ext' : Ext)
      (s t : TokenAccount)
      → rt.transfer source target authority amount signers ext ≡ some ext'
      → source ≢ target
      → rt.token_account ext source ≡ some s
      → rt.token_account ext target ≡ some t
      → (amount ≤ s.amount)
        × (rt.token_account ext' source ≡ some (record s { amount = s.amount - amount }))
        × (rt.token_account ext' target ≡ some (record t { amount = t.amount + amount }))

  -- Its Approve: what the accounts hold stays.
  abbrev pub ApproveKeeps : Type 0
  ApproveKeeps =
      (account delegate authority : Pubkey) (amount : ℕ) (signers : List Pubkey) (ext ext' : Ext)
      (key : Pubkey)
      → rt.approve account delegate authority amount signers ext ≡ some ext'
      → rt.token_account ext' key ≡ rt.token_account ext key

  -- The account that the NFT comes from.
  abbrev pub source_of : Accounts → KingOfHill → Pubkey
  source_of a king = if is_unclaimed king then a.escrow_vault else a.prev_champion_nft_ata

  module _ (tx : Tx) (a : Accounts) where
    move_nft-transfers :
        (l : Loaded) (ext moved : Ext)
        → move_nft rt tx a l (is_unclaimed l.king) ext ≡ ok moved
        → (authority : Pubkey) × (signers : List Pubkey) × (rt.transfer
              (source_of a l.king)
              a.challenger_nft_ata
              authority
              1
              signers
              ext
            ≡ some moved)
    unfolding move_nft
    move_nft-transfers l ext moved h = elim (Bool-cases (is_unclaimed l.king)) [
      | inl first ↦
          elim (Result-cases
            (signers_with rt tx (king_escrow_seed ∷ a.king ∷ []) l.king.nft_escrow_vault_bump)) [
              | inr (x, e) ↦ absurd (ground arith)
              | inl (signers, e) ↦ (a.escrow_owner, signers, ground arith)
            ]
      | inr later ↦ elim (Result-cases (signers_with rt tx (king_seed ∷ a.pet ∷ []) l.king.bump)) [
        | inr (x, e) ↦ absurd (ground arith)
        | inl (signers, e) ↦ (a.king, signers, ground arith)
      ]
    ]

    -- The accounts of a call that has gone through.
    pub record NftThrone (chain : Chain Ext) (l : Loaded) : Type 0 where
      pub throne : load_king chain a.king ≡ ok l.king
      pub throne_mint : bytes_eq a.nft_mint l.king.nft_mint ≡ true
      pub throne_vault : bytes_eq a.escrow_vault l.king.nft_escrow_vault ≡ true
      pub source_there :
          load_token rt chain.ext a.prev_champion_nft_ata ≡ ok l.prev_champion_nft_ata

    try_accounts-NftThrone :
        (chain : Chain Ext) (l : Loaded) → try_accounts rt tx a chain ≡ ok l → NftThrone chain l
    unfolding try_accounts
    try_accounts-NftThrone chain l h = ground arith

    pub record NftAccounts (chain : Chain Ext) (vault target : TokenAccount) : Type 0 where
      pub vault_there : load_token rt chain.ext a.escrow_vault ≡ ok vault
      pub target_there : load_token rt chain.ext a.challenger_nft_ata ≡ ok target
      pub own : bytes_eq target.owner a.challenger ≡ true
      pub of_mint : bytes_eq target.mint a.nft_mint ≡ true

    try_accounts-NftAccounts :
        (chain : Chain Ext) (l : Loaded)
        → try_accounts rt tx a chain ≡ ok l
        → (vault target : TokenAccount) × NftAccounts chain vault target
    unfolding try_accounts
    try_accounts-NftAccounts chain l h =
        elim (Result-cases (load_token rt chain.ext a.escrow_vault)) [
          | inr (x, e) ↦ absurd (ground arith)
          | inl (vault, e) ↦ elim (Result-cases (load_token rt chain.ext a.challenger_nft_ata)) [
            | inr (x, f) ↦ absurd (ground arith)
            | inl (target, f) ↦ (vault, target, ground arith)
          ]
        ]

    load_token-some :
        (ext : Ext) (key : Pubkey) (t : TokenAccount)
        → load_token rt ext key ≡ ok t
        → rt.token_account ext key ≡ some t
    unfolding load_token
    load_token-some ext key t h = ground arith

    -- What the source holds.
    abbrev given_of : Loaded → TokenAccount → TokenAccount
    given_of l vault = if is_unclaimed l.king then vault else l.prev_champion_nft_ata

    source-there :
        (chain : Chain Ext) (l : Loaded) (vault target : TokenAccount)
        → NftThrone chain l
        → NftAccounts chain vault target
        → load_token rt chain.ext (source_of a l.king) ≡ ok (given_of l vault)
    source-there chain l vault target k n = elim (Bool-cases (is_unclaimed l.king)) [
      | inl first ↦ rw first n.vault_there
      | inr later ↦ rw later k.source_there
    ]

    -- A later capture asks for an account of the champion so far.
    handler-owner :
        (l : Loaded) (chain : Chain Ext) (r : Chain Ext × Event)
        → handler rt tx a l chain ≡ ok r
        → (is_unclaimed l.king ≡ true)
          ⊎ (bytes_eq l.prev_champion_nft_ata.owner l.king.current_champion ≡ true)
    unfolding handler move_nft
    handler-owner l chain r h = ground arith

    -- Whose account the token comes from: the throne's vault if no one has captured it, else an
    -- account of the champion so far.
    abbrev pub ComesFrom : KingOfHill → TokenAccount → Type 0
    ComesFrom king given =
        ((is_unclaimed king ≡ true) × (source_of a king ≡ king.nft_escrow_vault))
        ⊎ ((is_unclaimed king ≡ false) × (given.owner ≡ king.current_champion))

    comes_from :
        (chain : Chain Ext) (l : Loaded) (vault : TokenAccount)
        → NftThrone chain l
        → (is_unclaimed l.king ≡ true)
          ⊎ (bytes_eq l.prev_champion_nft_ata.owner l.king.current_champion ≡ true)
        → ComesFrom l.king (given_of l vault)
    unfolding is_unclaimed
    comes_from chain l vault k asked = ground (
      arith,
      bytes_eq→≡ a.escrow_vault l.king.nft_escrow_vault,
      bytes_eq→≡ l.prev_champion_nft_ata.owner l.king.current_champion,
    )

    -- One token goes from the source to the challenger's account of the throne's mint.
    abbrev pub TokenMoves : KingOfHill → Chain Ext → Chain Ext → Type 0
    TokenMoves king chain chain' =
        (given target : TokenAccount) × (rt.token_account chain.ext (source_of a king) ≡ some given)
        × (rt.token_account chain.ext a.challenger_nft_ata ≡ some target)
        × (target.owner ≡ a.challenger)
        × (target.mint ≡ king.nft_mint)
        × ComesFrom king given
        × (1 ≤ given.amount)
        × (rt.token_account chain'.ext (source_of a king)
            ≡ some (record given { amount = given.amount - 1 }))
        × (rt.token_account chain'.ext a.challenger_nft_ata
            ≡ some (record target { amount = target.amount + 1 }))

    -- If the token program does as its documentation says: a capture that goes through takes one
    -- token out of the source, which had one, and puts it into the challenger's account of the
    -- throne's mint, if these are two accounts. The source is the throne's escrow vault if no one has
    -- captured the throne, and else a token account that the champion so far owns.
    pub capture_takes_nft :
        TransferMoves
        → ApproveKeeps
        → (chain chain' : Chain Ext) (event : Event) (king : KingOfHill)
        → take_throne rt tx a chain ≡ ok (chain', event)
        → load_king chain a.king ≡ ok king
        → source_of a king ≢ a.challenger_nft_ata
        → TokenMoves king chain chain'
    unfolding take_throne put
    capture_takes_nft moves keeps chain chain' event king h loaded apart =
        elim (Result-cases (try_accounts rt tx a chain)) [
          | inr (x, e) ↦ absurd (ground arith)
          | inl (l, e) ↦
              let k = try_accounts-NftThrone chain l e in
              let (vault, target, n) = try_accounts-NftAccounts chain l e in
              let (t, f) = take_throne-Captures rt tx a chain chain' event h in
              let same : t.king ≡ l.king = cc in
              let mine : l.king ≡ king = cc in
              let there =
                load_token-some chain.ext (source_of a l.king) (given_of l vault)
                  (source-there chain l vault target k n) in
              let held = load_token-some chain.ext a.challenger_nft_ata target n.target_there in
              let (authority, signers, sent) = move_nft-transfers _ chain.ext t.moved f.taken in
              let sent' =
                subst
                  (λ j.
                    rt.transfer (source_of a j) a.challenger_nft_ata authority 1 signers chain.ext
                    ≡ some t.moved)
                  same sent in
              let (enough, out, into) =
                moves (source_of a l.king) a.challenger_nft_ata authority 1 signers chain.ext
                  t.moved (given_of l vault) target sent'
                  (subst (λ j. source_of a j ≢ a.challenger_nft_ata) (sym mine) apart) there held in
              let after : chain'.ext ≡ t.approved = ap (λ (c : Chain Ext). c.ext) f.result in
              let kept = λ (key : Pubkey).
                ap (λ x. rt.token_account x key) after
                ∙ keeps a.challenger_nft_ata a.king a.challenger 1 tx.signers t.moved t.approved key
                    f.delegated in
              subst (λ j. TokenMoves j chain chain') mine
                (
                  given_of l vault,
                  target,
                  there,
                  held,
                  bytes_eq→≡ target.owner a.challenger n.own,
                  bytes_eq→≡ target.mint a.nft_mint n.of_mint
                      ∙ bytes_eq→≡ a.nft_mint l.king.nft_mint k.throne_mint,
                  comes_from chain l vault k (handler-owner l chain (chain', event) (rw e at h)),
                  enough,
                  kept (source_of a l.king) ∙ out,
                  kept a.challenger_nft_ata ∙ into,
                )
        ]
