-- ===== src/Runtime.antt =====
-- What the program calls and does not implement, as a parameter of the model: Solana's hash,
-- program-derived addresses, clock and system program, and the SPL token, associated token and
-- Metaplex metadata programs. `Ext` is the state that those programs keep: lamports, mints, token
-- accounts, metadata. A call that fails gives `none`. A call into another program takes the keys
-- that have signed it: the transaction's, and the derived address that `invoke_signed` adds.
use kolz_protocol.Base.{ℕ, Bool, Option, List}
use kolz_protocol.Bytes.{Bytes, Pubkey}

-- The fields of a token account that this program reads.
pub record TokenAccount : Type 0 where
  pub mint : Pubkey
  pub owner : Pubkey
  pub amount : ℕ

pub record Runtime (Ext : Type 0) : Type 0 where
  pub keccak : Bytes → Bytes
  -- For this program's id: from seeds without the bump, and from seeds with it.
  pub find_program_address : List Bytes → Pubkey × ℕ
  pub create_program_address : List Bytes → Option Pubkey
  -- The ids of the programs that an instruction names, and of the rent sysvar.
  pub token_program_id : Pubkey
  pub associated_token_program_id : Pubkey
  pub token_metadata_program_id : Pubkey
  pub rent_id : Pubkey
  -- `Clock::get()?.slot`
  pub clock_slot : Ext → Option ℕ
  pub lamports : Ext → Pubkey → ℕ
  pub token_account : Ext → Pubkey → Option TokenAccount
  pub is_mint : Ext → Pubkey → Bool
  -- The payer, the new account, its size.
  pub create_account : Pubkey → Pubkey → ℕ → Ext → Option Ext
  -- The payer, the new mint, decimals, mint authority, freeze authority, signers.
  pub create_mint : Pubkey → Pubkey → ℕ → Pubkey → Pubkey → List Pubkey → Ext → Option Ext
  -- The payer, the new account, its mint, its owner.
  pub create_associated_token_account : Pubkey → Pubkey → Pubkey → Pubkey → Ext → Option Ext
  -- From, to, lamports, signers.
  pub system_transfer : Pubkey → Pubkey → ℕ → List Pubkey → Ext → Option Ext
  -- The mint, the destination, the authority, the amount, signers.
  pub mint_to : Pubkey → Pubkey → Pubkey → ℕ → List Pubkey → Ext → Option Ext
  -- From, to, the authority, the amount, signers.
  pub transfer : Pubkey → Pubkey → Pubkey → ℕ → List Pubkey → Ext → Option Ext
  -- The account, the delegate, the authority, the amount, signers.
  pub approve : Pubkey → Pubkey → Pubkey → ℕ → List Pubkey → Ext → Option Ext
  -- The account, the authority, signers.
  pub revoke : Pubkey → Pubkey → List Pubkey → Ext → Option Ext
  -- The metadata account, the mint, its authority, the payer, the name, symbol and uri, signers.
  pub create_metadata :
      Pubkey → Pubkey → Pubkey → Pubkey → Bytes → Bytes → Bytes → List Pubkey → Ext → Option Ext
