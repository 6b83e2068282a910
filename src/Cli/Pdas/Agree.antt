-- ===== src/Cli/Pdas/Agree.antt =====
-- The addresses of cli/src/pdas.rs against the seeds of programs/cols/src/instructions.
use kolz_protocol.Base.{ℕ, ◌≡◌, refl, List, [], ◌∷◌, arith}
use kolz_protocol.Bytes.{Bytes, Pubkey, to_le_bytes}
use kolz_protocol.Bytes.Order.{bytes_eq_refl}
use kolz_protocol.Constants
use kolz_protocol.Errors.{Result, ok, err, cols, name_too_long}
use kolz_protocol.Runtime.{Runtime}
use kolz_protocol.Chain.{find_bump}
use kolz_protocol.Utils.{pack_kol_name}
use kolz_protocol.Cli.Pdas
use kolz_protocol.Cli.Pdas.{Encoded, encoded, rejected, encode_kol_name}

module _ {Ext : Type 0} (rt : Runtime Ext) (find : List Bytes → Pubkey → Pubkey × ℕ)
    (program_id : Pubkey) where
  -- If the client's derivation for the program's id is the program's own, the program accepts the
  -- client's addresses, and their bumps, for its seeds: of the config, a pet, a launch, a throne, a
  -- distribution, a receipt and the fee vault.
  pub find_bump-pdas :
      ((seeds : List Bytes) → rt.find_program_address seeds ≡ find seeds program_id)
      → (owner name pet holder : Bytes) (epoch : ℕ)
      → let accepts =
          λ (seeds : List Bytes) (pda : Pubkey × ℕ). find_bump rt seeds pda.0 ≡ ok pda.1 in
        accepts (Constants.config_seed ∷ []) (Pdas.config find program_id)
        × accepts (Constants.pet_seed ∷ owner ∷ name ∷ []) (Pdas.pet find program_id owner name)
        × accepts (Constants.launch_seed ∷ pet ∷ []) (Pdas.launch find program_id pet)
        × accepts (Constants.king_seed ∷ pet ∷ []) (Pdas.king find program_id pet)
        × accepts
            (Constants.distribution_seed ∷ to_le_bytes 8 epoch ∷ [])
            (Pdas.distribution find program_id epoch)
        × accepts
            (Constants.holder_claim_seed ∷ holder ∷ to_le_bytes 8 epoch ∷ [])
            (Pdas.holder_claim find program_id holder epoch)
        × accepts (Constants.fee_vault_seed ∷ []) (Pdas.fee_vault find program_id)
  unfolding find_bump Pdas.config Pdas.pet Pdas.launch Pdas.king Pdas.distribution Pdas.holder_claim
      Pdas.fee_vault
  find_bump-pdas same owner name pet holder epoch =
      (by_seeds _, by_seeds _, by_seeds _, by_seeds _, by_seeds _, by_seeds _, by_seeds _)
    where
      by_seeds :
          (seeds : List Bytes)
          → find_bump rt seeds (find seeds program_id).0 ≡ ok (find seeds program_id).1
      by_seeds seeds = rw (same seeds, bytes_eq_refl (find seeds program_id).0) refl

-- What the program makes of the client's answer.
abbrev pub as_result : Encoded → Result Bytes
as_result (encoded name) = ok name
as_result (rejected message) = err (cols name_too_long)

-- The client encodes every name as the program packs it, and rejects it exactly when the program does.
pub encode_kol_name-pack_kol_name :
    (name : Bytes) → as_result (encode_kol_name name) ≡ pack_kol_name name
unfolding encode_kol_name pack_kol_name
encode_kol_name-pack_kol_name name = ground arith
