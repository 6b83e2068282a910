-- ===== src/Cli/Host.antt =====
-- What cli/src calls and does not implement, as a parameter: the Solana SDK and RPC client, borsh,
-- serde_json, the file system, the standard library's float format and lossy decoding of UTF-8.
-- What the network answers during one run is a function of what it is asked.
use kolz_protocol.Base.{ℕ, Bool, true, false, ◌⊎◌, List}
use kolz_protocol.Bytes.{Bytes, Pubkey}
use kolz_protocol.Borsh.{Borsh}
use kolz_protocol.Cli.Text.{Text}

-- `AccountMeta` and `Instruction` of the SDK.
pub record AccountMeta : Type 0 where
  pub pubkey : Pubkey
  pub is_signer : Bool
  pub is_writable : Bool

abbrev pub writable : Pubkey → Bool → AccountMeta
writable key signer = record { pubkey = key; is_signer = signer; is_writable = true }

abbrev pub readonly : Pubkey → Bool → AccountMeta
readonly key signer = record { pubkey = key; is_signer = signer; is_writable = false }

pub record RawInstruction : Type 0 where
  pub program_id : Pubkey
  pub accounts : List AccountMeta
  pub payload : Bytes

pub record Transaction : Type 0 where
  pub instructions : List RawInstruction
  pub payer : Pubkey
  pub signers : List Pubkey
  pub blockhash : Bytes

pub record RemoteAccount : Type 0 where
  pub owner : Pubkey
  pub content : Bytes

-- A key pair, by its public key and its bytes.
pub record Keypair : Type 0 where
  pub pubkey : Pubkey
  pub bytes : Bytes

-- On the left, the text of an error.
pub record Host : Type 0 where
  pub find_program_address : List Bytes → Pubkey → Pubkey × ℕ
  pub pubkey_from_str : Text → Text ⊎ Pubkey
  pub show_pubkey : Pubkey → Text
  pub sha256 : Bytes → Bytes
  pub borsh : Borsh
  pub borsh_reason : Text
  pub lossy : Bytes → Text
  pub fmt_sol : ℕ → Text
  pub rent_id : Pubkey
  pub get_account : Pubkey → Text ⊎ RemoteAccount
  pub get_latest_blockhash : Text ⊎ Bytes
  pub send_and_confirm : Transaction → Text ⊎ Text
  pub read_keypair_file : Text → Text ⊎ Keypair
  pub new_keypair : Keypair
  pub bytes_to_json : Bytes → Text ⊎ Text
  pub write_file : Text → Text → Text ⊎ Unit {0}
