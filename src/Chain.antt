-- ===== src/Chain.antt =====
-- The state that an instruction runs on, and the checks that `#[derive(Accounts)]` makes of the
-- declarations in programs/cols/src/instructions. `Chain` holds the accounts that this program owns
-- by key, each tagged by its discriminator, and the state of the other programs. `Tx` is what the
-- transaction says of its accounts: which keys have signed, and which are writable.
pub mod Lookup
pub mod Data
pub mod Checks
use kolz_protocol.Base.{
  ℕ, Bool, true, false, not, Option, none, some, List, [], ◌∷◌, ◌++◌, if◌then◌else◌,
}
use kolz_protocol.Bytes.{Bytes, Pubkey, bytes_eq}
use kolz_protocol.Errors.{
  Error, Result, ok, err, ◌>>=◌, ◌>>◌, ensure, ok_or, anchor, call_failed, account_not_signer,
  constraint_mut, constraint_seeds, account_not_initialized, account_discriminator_mismatch,
  account_already_in_use, invalid_program_id, account_sysvar_mismatch,
}
use kolz_protocol.Runtime.{Runtime, TokenAccount}
use kolz_protocol.State.Config.{Config}
use kolz_protocol.State.Pet.{Pet}
use kolz_protocol.State.Launch.{Launch}
use kolz_protocol.State.King.{KingOfHill}
use kolz_protocol.State.Distribution.{Distribution}
use kolz_protocol.State.HolderClaim.{HolderClaim}

pub data Account : Type 0 where
  config_account : Config → Account
  pet_account : Pet → Account
  launch_account : Launch → Account
  king_account : KingOfHill → Account
  distribution_account : Distribution → Account
  holder_claim_account : HolderClaim → Account

pub record Tx : Type 0 where
  pub signers : List Pubkey
  pub writable : List Pubkey

unfoldable pub contains : List Pubkey → Pubkey → Bool
contains [] key = false
contains (k ∷ keys) key = if bytes_eq k key then true else contains keys key

-- The accounts, an association list.
abbrev pub Store : Type 0
Store = List (Pubkey × Account)

unfoldable pub lookup : Pubkey → Store → Option Account
lookup key [] = none
lookup key ((k, account) ∷ store) = if bytes_eq k key then some account else lookup key store

unfoldable pub insert : Pubkey → Account → Store → Store
insert key account [] = (key, account) ∷ []
insert key account ((k, old) ∷ store) =
    if bytes_eq k key then (key, account) ∷ store else (k, old) ∷ insert key account store

pub record Chain (Ext : Type 0) : Type 0 where
  pub accounts : Store
  pub ext : Ext

module _ {Ext : Type 0} where
  -- An account written back when the instruction ends.
  unfoldable pub put : Pubkey → Account → Chain Ext → Chain Ext
  put key account chain = record chain { accounts = insert key account chain.accounts }

  -- The account types of the declarations: the account exists, and its discriminator fits.
  unfoldable pub load_config : Chain Ext → Pubkey → Result Config
  load_config chain key = elim (lookup key chain.accounts) [
    | none ↦ err (anchor account_not_initialized)
    | some (config_account a) ↦ ok a
    | some _ ↦ err (anchor account_discriminator_mismatch)
  ]

  unfoldable pub load_pet : Chain Ext → Pubkey → Result Pet
  load_pet chain key = elim (lookup key chain.accounts) [
    | none ↦ err (anchor account_not_initialized)
    | some (pet_account a) ↦ ok a
    | some _ ↦ err (anchor account_discriminator_mismatch)
  ]

  unfoldable pub load_launch : Chain Ext → Pubkey → Result Launch
  load_launch chain key = elim (lookup key chain.accounts) [
    | none ↦ err (anchor account_not_initialized)
    | some (launch_account a) ↦ ok a
    | some _ ↦ err (anchor account_discriminator_mismatch)
  ]

  unfoldable pub load_king : Chain Ext → Pubkey → Result KingOfHill
  load_king chain key = elim (lookup key chain.accounts) [
    | none ↦ err (anchor account_not_initialized)
    | some (king_account a) ↦ ok a
    | some _ ↦ err (anchor account_discriminator_mismatch)
  ]

  unfoldable pub load_distribution : Chain Ext → Pubkey → Result Distribution
  load_distribution chain key = elim (lookup key chain.accounts) [
    | none ↦ err (anchor account_not_initialized)
    | some (distribution_account a) ↦ ok a
    | some _ ↦ err (anchor account_discriminator_mismatch)
  ]

  unfoldable pub is_fresh : Chain Ext → Pubkey → Bool
  is_fresh chain key = elim (lookup key chain.accounts) [ none ↦ true | some _ ↦ false ]

-- `Signer<'info>`, `#[account(mut)]` and `Program<'info, _>`.
unfoldable pub check_signer : Tx → Pubkey → Result (Unit {0})
check_signer tx key = ensure (contains tx.signers key) account_not_signer

unfoldable pub check_mut : Tx → Pubkey → Result (Unit {0})
check_mut tx key = ensure (contains tx.writable key) constraint_mut

unfoldable pub check_program : Pubkey → Pubkey → Result (Unit {0})
check_program id key = ensure (bytes_eq key id) invalid_program_id

-- `Sysvar<'info, _>`
unfoldable pub check_sysvar : Pubkey → Pubkey → Result (Unit {0})
check_sysvar id key = ensure (bytes_eq key id) account_sysvar_mismatch

module _ {Ext : Type 0} (rt : Runtime Ext) where
  unfoldable pub load_token : Ext → Pubkey → Result TokenAccount
  load_token ext key = ok_or (rt.token_account ext key) (anchor account_not_initialized)

  unfoldable pub check_mint : Ext → Pubkey → Result (Unit {0})
  check_mint ext key = ensure (rt.is_mint ext key) account_not_initialized

  -- `seeds = […], bump = b`
  unfoldable pub is_derived : List Bytes → ℕ → Pubkey → Bool
  is_derived seeds bump key = elim (rt.create_program_address (seeds ++ (bump ∷ []) ∷ [])) [
    | none ↦ false
    | some k ↦ bytes_eq k key
  ]

  unfoldable pub check_seeds : List Bytes → ℕ → Pubkey → Result (Unit {0})
  unfolding is_derived
  check_seeds seeds bump key = ensure (is_derived seeds bump key) constraint_seeds

  -- `seeds = […], bump`: the canonical address; its bump is the field of `ctx.bumps`.
  unfoldable pub find_bump : List Bytes → Pubkey → Result ℕ
  find_bump seeds key =
      let (k, bump) = rt.find_program_address seeds in
      do ensure (bytes_eq k key) constraint_seeds; ok bump

  -- `init, payer = …, space = …, seeds = […], bump`: the account must not exist; gives the bump. That
  -- the account is writable, which `init` implies, is checked after it.
  unfoldable pub init_account : Pubkey → List Bytes → Pubkey → ℕ → Chain Ext → Result (ℕ × Ext)
  unfolding find_bump
  init_account payer seeds key space chain = do
    bump ← find_bump seeds key
    ensure (is_fresh chain key) account_already_in_use
    ext ← ok_or (rt.create_account payer key space chain.ext) call_failed
    ok (bump, ext)

  -- `init_if_needed` of an account type with its loader and its `Default`: an account that exists is
  -- loaded, else it is created; gives the account and the bump.
  unfoldable pub init_if_needed :
      {A : Type 0}
      → (Chain Ext → Pubkey → Result A)
      → A
      → Pubkey
      → List Bytes
      → Pubkey
      → ℕ
      → Chain Ext
      → Result (A × ℕ × Ext)
  unfolding find_bump
  init_if_needed load default payer seeds key space chain = do
    bump ← find_bump seeds key
    if is_fresh chain key
        then (do
          ext ← ok_or (rt.create_account payer key space chain.ext) call_failed
          ok (default, bump, ext))
        else (do account ← load chain key; ok (account, bump, chain.ext))

  -- The signers of a call by `invoke_signed`: the address derived from the seeds is added.
  unfoldable pub signers_with : Tx → List Bytes → ℕ → Result (List Pubkey)
  signers_with tx seeds bump = do
    key ← ok_or (rt.create_program_address (seeds ++ (bump ∷ []) ∷ [])) call_failed
    ok (key ∷ tx.signers)
