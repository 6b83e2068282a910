-- ===== src/Program/Wire.antt =====
-- The instructions as they arrive: `#[derive(Accounts)]` in programs/cols/src/instructions takes the
-- accounts of a transaction one after the other, in the order of the declaration. It fails at the
-- first that is missing or is not of its declared type, and leaves what is left over alone; an account
-- that `init` makes is only taken. What `try_accounts` of the instruction checks after that, the
-- instruction itself models; it looks at the types again, which then hold.
use kolz_protocol.Base.{ℕ, List, [], ◌∷◌}
use kolz_protocol.Bytes.{Bytes, Pubkey}
use kolz_protocol.Constants.{system_program_id}
use kolz_protocol.Errors.{Result, ok, err, ◌>>=◌, anchor, account_not_enough_keys}
use kolz_protocol.Events.{Event}
use kolz_protocol.Runtime.{Runtime}
use kolz_protocol.Chain.{
  Chain, Tx, check_signer, check_program, check_sysvar, check_mint, load_config, load_pet,
  load_launch, load_king, load_distribution, load_token,
}
use kolz_protocol.Instructions.InitConfig
use kolz_protocol.Instructions.BindLaunch
use kolz_protocol.Instructions.MintKolNft
use kolz_protocol.Instructions.TakeThrone
use kolz_protocol.Instructions.SettleThrone
use kolz_protocol.Instructions.CommitDistributionRoot
use kolz_protocol.Instructions.ClaimHolderFees

-- The declared types of an account that `try_accounts` takes: `Signer`, `Program` and `Sysvar` with
-- the id, the accounts of this program, mints and token accounts, and those that are not looked at.
pub data Kind : Type 0 where
  unchecked signer config_kind pet_kind launch_kind king_kind distribution_kind : Kind
  mint_kind token_kind : Kind
  program sysvar : Pubkey → Kind

module _ {Ext : Type 0} (rt : Runtime Ext) (tx : Tx) (chain : Chain Ext) where
  unfoldable pub check_kind : Kind → Pubkey → Result (Unit {0})
  check_kind unchecked key = ok tt
  check_kind signer key = check_signer tx key
  check_kind config_kind key = do account ← load_config chain key; ok tt
  check_kind pet_kind key = do account ← load_pet chain key; ok tt
  check_kind launch_kind key = do account ← load_launch chain key; ok tt
  check_kind king_kind key = do account ← load_king chain key; ok tt
  check_kind distribution_kind key = do account ← load_distribution chain key; ok tt
  check_kind mint_kind key = check_mint rt chain.ext key
  check_kind token_kind key = do account ← load_token rt chain.ext key; ok tt
  check_kind (program id) key = check_program id key
  check_kind (sysvar id) key = check_sysvar id key

  -- The next account, and those after it.
  unfoldable pub take_next : Kind → List Pubkey → Result (Pubkey × List Pubkey)
  unfolding check_kind
  take_next kind [] = err (anchor account_not_enough_keys)
  take_next kind (key ∷ keys) = do checked ← check_kind kind key; ok (key, keys)

  unfoldable pub init_accounts : List Pubkey → Result InitConfig.Accounts
  unfolding take_next
  init_accounts keys = do
    (admin, rest1) ← take_next signer keys
    (config, rest2) ← take_next unchecked rest1
    (fee_vault, rest3) ← take_next unchecked rest2
    (system_program, left_over) ← take_next (program system_program_id) rest3
    ok (record {
      admin = admin;
      config = config;
      fee_vault = fee_vault;
      system_program = system_program;
    })

  unfoldable pub bind_accounts : List Pubkey → Result BindLaunch.Accounts
  unfolding take_next
  bind_accounts keys = do
    (oracle, rest1) ← take_next signer keys
    (kol_owner, rest2) ← take_next unchecked rest1
    (pump_mint, rest3) ← take_next unchecked rest2
    (pet, rest4) ← take_next unchecked rest3
    (launch, rest5) ← take_next unchecked rest4
    (config, rest6) ← take_next config_kind rest5
    (system_program, left_over) ← take_next (program system_program_id) rest6
    ok (record {
      oracle = oracle;
      kol_owner = kol_owner;
      pump_mint = pump_mint;
      pet = pet;
      launch = launch;
      config = config;
      system_program = system_program;
    })

  unfoldable pub mint_accounts : List Pubkey → Result MintKolNft.Accounts
  unfolding take_next
  mint_accounts keys = do
    (oracle, rest1) ← take_next signer keys
    (config, rest2) ← take_next config_kind rest1
    (pet, rest3) ← take_next pet_kind rest2
    (launch, rest4) ← take_next launch_kind rest3
    (king, rest5) ← take_next unchecked rest4
    (nft_mint, rest6) ← take_next unchecked rest5
    (escrow_owner, rest7) ← take_next unchecked rest6
    (escrow_vault, rest8) ← take_next unchecked rest7
    (metadata, rest9) ← take_next unchecked rest8
    (token_program, rest10) ← take_next (program rt.token_program_id) rest9
    (associated_token_program, rest11) ← take_next (program rt.associated_token_program_id) rest10
    (token_metadata_program, rest12) ← take_next (program rt.token_metadata_program_id) rest11
    (system_program, rest13) ← take_next (program system_program_id) rest12
    (rent, left_over) ← take_next (sysvar rt.rent_id) rest13
    ok (record {
      oracle = oracle;
      config = config;
      pet = pet;
      launch = launch;
      king = king;
      nft_mint = nft_mint;
      escrow_owner = escrow_owner;
      escrow_vault = escrow_vault;
      metadata = metadata;
      token_program = token_program;
      associated_token_program = associated_token_program;
      token_metadata_program = token_metadata_program;
      system_program = system_program;
      rent = rent;
    })

  unfoldable pub take_accounts : List Pubkey → Result TakeThrone.Accounts
  unfolding take_next
  take_accounts keys = do
    (challenger, rest1) ← take_next signer keys
    (config, rest2) ← take_next config_kind rest1
    (pet, rest3) ← take_next pet_kind rest2
    (launch, rest4) ← take_next launch_kind rest3
    (king, rest5) ← take_next king_kind rest4
    (pump_mint, rest6) ← take_next mint_kind rest5
    (challenger_pump_ata, rest7) ← take_next token_kind rest6
    (nft_mint, rest8) ← take_next mint_kind rest7
    (escrow_vault, rest9) ← take_next token_kind rest8
    (escrow_owner, rest10) ← take_next unchecked rest9
    (challenger_nft_ata, rest11) ← take_next token_kind rest10
    (prev_champion_nft_ata, rest12) ← take_next token_kind rest11
    (token_program, left_over) ← take_next (program rt.token_program_id) rest12
    ok (record {
      challenger = challenger;
      config = config;
      pet = pet;
      launch = launch;
      king = king;
      pump_mint = pump_mint;
      challenger_pump_ata = challenger_pump_ata;
      nft_mint = nft_mint;
      escrow_vault = escrow_vault;
      escrow_owner = escrow_owner;
      challenger_nft_ata = challenger_nft_ata;
      prev_champion_nft_ata = prev_champion_nft_ata;
      token_program = token_program;
    })

  unfoldable pub settle_accounts : List Pubkey → Result SettleThrone.Accounts
  unfolding take_next
  settle_accounts keys = do
    (oracle, rest1) ← take_next signer keys
    (config, rest2) ← take_next config_kind rest1
    (pet, rest3) ← take_next pet_kind rest2
    (king, rest4) ← take_next king_kind rest3
    (champion_nft_ata, rest5) ← take_next token_kind rest4
    (nft_mint, rest6) ← take_next mint_kind rest5
    (token_program, left_over) ← take_next (program rt.token_program_id) rest6
    ok (record {
      oracle = oracle;
      config = config;
      pet = pet;
      king = king;
      champion_nft_ata = champion_nft_ata;
      nft_mint = nft_mint;
      token_program = token_program;
    })

  unfoldable pub commit_accounts : List Pubkey → Result CommitDistributionRoot.Accounts
  unfolding take_next
  commit_accounts keys = do
    (oracle, rest1) ← take_next signer keys
    (config, rest2) ← take_next config_kind rest1
    (distribution, rest3) ← take_next unchecked rest2
    (system_program, left_over) ← take_next (program system_program_id) rest3
    ok (record {
      oracle = oracle;
      config = config;
      distribution = distribution;
      system_program = system_program;
    })

  unfoldable pub claim_accounts : List Pubkey → Result ClaimHolderFees.Accounts
  unfolding take_next
  claim_accounts keys = do
    (holder, rest1) ← take_next signer keys
    (config, rest2) ← take_next config_kind rest1
    (distribution, rest3) ← take_next distribution_kind rest2
    (holder_claim, rest4) ← take_next unchecked rest3
    (fee_vault, rest5) ← take_next unchecked rest4
    (system_program, left_over) ← take_next (program system_program_id) rest5
    ok (record {
      holder = holder;
      config = config;
      distribution = distribution;
      holder_claim = holder_claim;
      fee_vault = fee_vault;
      system_program = system_program;
    })

module _ {Ext : Type 0} (rt : Runtime Ext) (tx : Tx) (keys : List Pubkey) where
  unfoldable pub receive_init : Pubkey → ℕ → Chain Ext → Result (Chain Ext × Event)
  unfolding init_accounts
  receive_init oracle_authority fee_basis_points chain = do
    accounts ← init_accounts rt tx chain keys
    InitConfig.init_config rt tx accounts oracle_authority fee_basis_points chain

  unfoldable pub receive_bind : Bytes → Chain Ext → Result (Chain Ext × Event)
  unfolding bind_accounts
  receive_bind kol_name chain = do
    accounts ← bind_accounts rt tx chain keys
    BindLaunch.oracle_bind_pumpfun_launch rt tx accounts kol_name chain

  unfoldable pub receive_mint : Bytes → Bytes → Bytes → Chain Ext → Result (Chain Ext × Event)
  unfolding mint_accounts
  receive_mint name symbol uri chain = do
    accounts ← mint_accounts rt tx chain keys
    MintKolNft.mint_kol_nft rt tx accounts name symbol uri chain

  unfoldable pub receive_take : Chain Ext → Result (Chain Ext × Event)
  unfolding take_accounts
  receive_take chain = do
    accounts ← take_accounts rt tx chain keys
    TakeThrone.take_throne rt tx accounts chain

  unfoldable pub receive_settle : Chain Ext → Result (Chain Ext × Event)
  unfolding settle_accounts
  receive_settle chain = do
    accounts ← settle_accounts rt tx chain keys
    SettleThrone.settle_throne rt tx accounts chain

  unfoldable pub receive_commit : ℕ → Bytes → ℕ → Chain Ext → Result (Chain Ext × Event)
  unfolding commit_accounts
  receive_commit epoch root pool_lamports chain = do
    accounts ← commit_accounts rt tx chain keys
    CommitDistributionRoot.commit_distribution_root rt tx accounts epoch root pool_lamports chain

  unfoldable pub receive_claim : ℕ → ℕ → List Bytes → Chain Ext → Result (Chain Ext × Event)
  unfolding claim_accounts
  receive_claim epoch amount proof chain = do
    accounts ← claim_accounts rt tx chain keys
    ClaimHolderFees.claim_holder_fees rt tx accounts epoch amount proof chain
