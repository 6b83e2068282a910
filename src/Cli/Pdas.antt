-- ===== src/Cli/Pdas.antt =====
-- cli/src/pdas.rs. `find` is `Pubkey::find_program_address`, of the Solana SDK.
pub mod Agree
use kolz_protocol.Base.{ℕ, List, [], ◌∷◌, ◌++◌, ltb, if◌then◌else◌, length, replicate}
use kolz_protocol.Bytes.{Bytes, Pubkey, to_le_bytes}
use kolz_protocol.Constants.{ascii}
use kolz_protocol.Utils.{copy_prefix}
use kolz_protocol.Cli.Text.{Text, show_number}

abbrev pub config_seed : Bytes
config_seed = ascii "config"

abbrev pub pet_seed : Bytes
pet_seed = ascii "pet"

abbrev pub launch_seed : Bytes
launch_seed = ascii "launch"

abbrev pub king_seed : Bytes
king_seed = ascii "king"

abbrev pub nft_vault_seed : Bytes
nft_vault_seed = ascii "nft_vault"

abbrev pub distribution_seed : Bytes
distribution_seed = ascii "distribution"

abbrev pub holder_claim_seed : Bytes
holder_claim_seed = ascii "holder_claim"

abbrev pub fee_vault_seed : Bytes
fee_vault_seed = ascii "fee_vault"

module _ (find : List Bytes → Pubkey → Pubkey × ℕ) (program_id : Pubkey) where
  unfoldable pub config : Pubkey × ℕ
  config = find (config_seed ∷ []) program_id

  unfoldable pub pet : Pubkey → Bytes → Pubkey × ℕ
  pet kol_owner kol_name = find (pet_seed ∷ kol_owner ∷ kol_name ∷ []) program_id

  unfoldable pub launch : Pubkey → Pubkey × ℕ
  launch pet_pda = find (launch_seed ∷ pet_pda ∷ []) program_id

  unfoldable pub king : Pubkey → Pubkey × ℕ
  king pet_pda = find (king_seed ∷ pet_pda ∷ []) program_id

  unfoldable pub nft_vault : Pubkey → Pubkey × ℕ
  nft_vault king_pda = find (nft_vault_seed ∷ king_pda ∷ []) program_id

  unfoldable pub distribution : ℕ → Pubkey × ℕ
  distribution epoch = find (distribution_seed ∷ to_le_bytes 8 epoch ∷ []) program_id

  unfoldable pub holder_claim : Pubkey → ℕ → Pubkey × ℕ
  holder_claim holder epoch =
      find (holder_claim_seed ∷ holder ∷ to_le_bytes 8 epoch ∷ []) program_id

  unfoldable pub fee_vault : Pubkey × ℕ
  fee_vault = find (fee_vault_seed ∷ []) program_id

-- A name as the seed's 32 bytes, or the message that rejects it.
pub data Encoded : Type 0 where
  encoded : Bytes → Encoded
  rejected : Text → Encoded

unfoldable pub encode_kol_name : Text → Encoded
unfolding show_number
encode_kol_name name =
    if ltb 32 (length name)
    then rejected
        (ascii "kol_name length " ++ (show_number (length name) ++ ascii " exceeds 32 byte limit"))
    else encoded (copy_prefix name (replicate 32 0))
