-- ===== src/Cli/Cmd/Claim.antt =====
-- cli/src/cmd/claim.rs
use kolz_protocol.Base.{ℕ, suc, Bool, true, false, List, [], ◌∷◌, ◌++◌, ◌==◌, length}
use kolz_protocol.Bytes.{Bytes}
use kolz_protocol.Constants.{ascii, system_program_id}
use kolz_protocol.Cli.Text.{Text, show_number}
use kolz_protocol.Cli.Error.{CliResult, done, reject_if, ◌>>=◌, ◌>>◌, invalid_arg}
use kolz_protocol.Cli.Discriminator
use kolz_protocol.Cli.Output.{Report}
use kolz_protocol.Cli.Pdas
use kolz_protocol.Cli.Hex.{decode_hex32}
use kolz_protocol.Cli.Host.{Host, RawInstruction, writable, readonly}
use kolz_protocol.Cli.Rpc.{Cli, send}

pub record Args : Type 0 where
  pub epoch : ℕ
  pub amount : ℕ
  pub proof : List Text

-- The loop over the proof's nodes, from node `idx` on.
unfoldable pub decode_nodes : ℕ → List Text → CliResult (List Bytes)
unfolding decode_hex32
decode_nodes idx [] = done []
decode_nodes idx (hex ∷ proof) = do
  node ← decode_hex32 (ascii "proof[" ++ (show_number idx ++ ascii "]")) hex
  nodes ← decode_nodes (suc idx) proof
  done (node ∷ nodes)

abbrev pub is_empty : List Text → Bool
is_empty [] = true
is_empty (x ∷ xs) = false

module _ (host : Host) where
  -- The serialized `ClaimPayload`.
  unfoldable pub payload : ℕ → ℕ → List Bytes → Bytes
  unfolding Discriminator.instruction
  payload epoch amount proof =
      (host.borsh.array 8).put (Discriminator.instruction host.sha256 (ascii "claim_holder_fees"))
      ++ (host.borsh.u64.put epoch ++ (host.borsh.u64.put amount ++ host.borsh.nodes.put proof))

  module _ (cli : Cli) (args : Args) where
    unfoldable pub prepare : CliResult (RawInstruction × (Text → Report))
    unfolding payload decode_nodes Pdas.distribution Pdas.fee_vault Pdas.holder_claim
    prepare = do
      reject_if (args.amount == 0)
          (invalid_arg (ascii "amount") (ascii "amount must be greater than zero"))
      reject_if (is_empty args.proof)
          (invalid_arg (ascii "proof") (ascii "proof must contain at least one merkle node"))
      proof_nodes ← decode_nodes 0 args.proof
      let holder = cli.payer.pubkey
      let distribution_pda =
          (Pdas.distribution host.find_program_address cli.program_id args.epoch).0
      let fee_vault_pda = (Pdas.fee_vault host.find_program_address cli.program_id).0
      let holder_claim_pda =
          (Pdas.holder_claim host.find_program_address cli.program_id holder args.epoch).0
      done (
        record {
          program_id = cli.program_id;
          accounts =
              writable holder true
              ∷ readonly distribution_pda false
              ∷ writable holder_claim_pda false
              ∷ writable fee_vault_pda false
              ∷ readonly system_program_id false
              ∷ [];
          payload = payload args.epoch args.amount proof_nodes;
        },
        λ sig. record {
          title = ascii "cols claim";
          rows =
              (ascii "signature", sig)
              ∷ (ascii "holder", host.show_pubkey holder)
              ∷ (ascii "holder_claim_pda", host.show_pubkey holder_claim_pda)
              ∷ (ascii "distribution_pda", host.show_pubkey distribution_pda)
              ∷ (ascii "fee_vault_pda", host.show_pubkey fee_vault_pda)
              ∷ (ascii "epoch", show_number args.epoch)
              ∷ (ascii "amount", show_number args.amount)
              ∷ (ascii "proof_nodes", show_number (length proof_nodes))
              ∷ [];
        },
      )

    unfoldable pub run : CliResult Report
    unfolding prepare send
    run = do
      (instruction, report) ← prepare
      sig ← send host cli (instruction ∷ [])
      done (report sig)
