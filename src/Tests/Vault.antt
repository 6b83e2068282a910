-- ===== src/Tests/Vault.antt =====
-- A runtime whose system program moves lamports, and Alice's claim on it.
use kolz_protocol.Base.{
  ℕ, ◌+◌, ◌-◌, ◌≤◌, ◌≡◌, ◌≢◌, refl, ap, subst, false, Option, none, some, [], ◌∷◌, if◌then◌else◌,
  leb, arith, Bool-cases, inl, inr,
}
use kolz_protocol.Bytes.{Bytes, Pubkey, bytes_eq, bytes_le, to_le_bytes}
use kolz_protocol.Bytes.Order.{bytes_eq→≡, bytes_eq_refl}
use kolz_protocol.Errors.{Result, ok, err}
use kolz_protocol.Events.{Event}
use kolz_protocol.Runtime.{Runtime}
use kolz_protocol.Program.Vault.{TransferPays, CreateCharges, PaysLamports, claim_pays}
use kolz_protocol.Merkle
use kolz_protocol.Utils
use kolz_protocol.Chain
use kolz_protocol.Instructions.InitConfig
use kolz_protocol.Instructions.BindLaunch
use kolz_protocol.Instructions.MintKolNft
use kolz_protocol.Instructions.TakeThrone
use kolz_protocol.Instructions.SettleThrone
use kolz_protocol.Instructions.CommitDistributionRoot
use kolz_protocol.Instructions.ClaimHolderFees
use kolz_protocol.Tests.World
use kolz_protocol.Tests.Scenario
use kolz_protocol.Program.{process}
use kolz_protocol.Merkle.Membership.{entry_leaf}
use kolz_protocol.State.King.{is_unclaimed}
use kolz_protocol.Tests.History
use kolz_protocol.Tests.World.{toy_hash, derive, key}

pub record Purse : Type 0 where
  pub slot : ℕ
  pub balances : Pubkey → ℕ

abbrev paid_out : Pubkey → Pubkey → ℕ → Purse → Purse
paid_out source target n purse = record purse {
  balances = λ at.
      if bytes_eq source at
      then purse.balances at - n
      else if bytes_eq target at
      then purse.balances at + n
      else purse.balances at;
}

unfoldable pub pay : Pubkey → Pubkey → ℕ → Purse → Option Purse
pay source target n purse =
    if leb n (purse.balances source) then some (paid_out source target n purse) else none

abbrev banking : Runtime Purse
banking = record {
  keccak = toy_hash;
  find_program_address = λ seeds. (derive seeds 255, 255);
  create_program_address = λ seeds. some (toy_hash (World.flatten seeds));
  token_program_id = key 101;
  associated_token_program_id = key 102;
  token_metadata_program_id = key 103;
  rent_id = key 104;
  clock_slot = λ purse. some purse.slot;
  lamports = λ purse. purse.balances;
  token_account = λ purse k. none;
  is_mint = λ purse k. false;
  create_account = λ payer new size purse. some (paid_out payer new 10 purse);
  create_mint = λ payer mint decimals authority freeze signers purse. some purse;
  create_associated_token_account = λ payer new mint owner purse. some purse;
  system_transfer = λ source target amount signers purse. pay source target amount purse;
  mint_to = λ mint target authority amount signers purse. some purse;
  transfer = λ source target authority amount signers purse. some purse;
  approve = λ account delegate authority amount signers purse. some purse;
  revoke = λ account authority signers purse. some purse;
  create_metadata = λ at mint authority payer name symbol uri signers purse. some purse;
}

banking-TransferPays : TransferPays banking
unfolding pay
banking-TransferPays source target n signers purse purse' h apart =
    elim (Bool-cases (leb n (purse.balances source))) [
      | inr less ↦ absurd (ground arith)
      | inl enough ↦
          let same : paid_out source target n purse ≡ purse' = ground arith in
          subst (λ w. PaysLamports banking source target n purse w) same
            (record {
              enough = ground arith;
              out = rw (bytes_eq_refl source) refl;
              into = ground (arith, bytes_eq_refl target, bytes_eq→≡ source target);
              others = λ at not_source not_target.
                  ground (arith, bytes_eq→≡ source at, bytes_eq→≡ target at);
            })
    ]

banking-CreateCharges : CreateCharges banking
banking-CreateCharges payer new size purse purse' at h other =
    let same : paid_out payer new 10 purse ≡ purse' = cc in
    subst
      (λ (w : Purse).
        (w.balances at ≤ purse.balances at) × (at ≢ payer → w.balances at ≡ purse.balances at))
      same
      (
        ground (arith, bytes_eq→≡ new at),
        λ apart. ground (arith, bytes_eq→≡ payer at, bytes_eq→≡ new at),
      )

abbrev purse : Purse
purse = record { slot = 1_000; balances = λ at. 100_000 }

-- The accounts of the scenario, with the lamports.
abbrev ready : Chain.Chain Purse
ready = record { accounts = History.committed.accounts; ext = purse }

abbrev alice_result : Result (Chain.Chain Purse × Event)
alice_result =
    ClaimHolderFees.claim_holder_fees banking (Scenario.tx_of Scenario.alice)
      (Scenario.claim_accounts Scenario.alice 3) 3 500 Scenario.alice_proof ready

abbrev after : Result (Chain.Chain Purse × Event) → Chain.Chain Purse
after (ok (chain, event)) = chain
after (err e) = ready

abbrev event : Result (Chain.Chain Purse × Event) → Event
event (ok (chain, e)) = e
event (err e) = History.event_of History.claim_result

alice_runs : alice_result ≡ ok (after alice_result, event alice_result)
unfolding process InitConfig.init_config BindLaunch.oracle_bind_pumpfun_launch BindLaunch.bind_pet
    BindLaunch.bind_launch MintKolNft.mint_kol_nft TakeThrone.take_throne TakeThrone.move_nft
    TakeThrone.deadline TakeThrone.captured SettleThrone.settle_throne
    CommitDistributionRoot.commit_distribution_root ClaimHolderFees.claim_holder_fees
    Chain.check_signer Chain.check_mut Chain.check_program Chain.check_sysvar Chain.check_mint
    Chain.check_seeds Chain.find_bump Chain.init_account Chain.init_if_needed Chain.signers_with
    Chain.load_config Chain.load_pet Chain.load_launch Chain.load_king Chain.load_distribution
    Chain.load_token Chain.is_fresh Chain.lookup Chain.contains Chain.put Chain.insert bytes_eq
    to_le_bytes Utils.check_fee_bps Utils.check_metadata_lengths Utils.saturating_add
    Utils.checked_add is_unclaimed World.flatten World.roll World.find_token World.revoke_as
    World.owns Merkle.proof_for Merkle.root Merkle.verify_merkle_proof
    Merkle.compute_distribution_leaf Merkle.leaf_preimage Merkle.pair_preimage entry_leaf bytes_le
    pay
alice_runs = refl

abbrev first_byte : Bytes → ℕ
first_byte [] = 0
first_byte (b ∷ bytes) = b

claim_pays_example :
    ((after alice_result).ext.balances Scenario.fee_vault + 500 ≡ 100_000)
    × ((after alice_result).ext.balances Scenario.alice ≤ 100_000 + 500)
    × ((at : Pubkey)
        → at ≢ Scenario.fee_vault
        → at ≢ Scenario.alice
        → at ≢ Scenario.receipt Scenario.alice 3
        → (after alice_result).ext.balances at ≡ 100_000)
unfolding World.roll World.flatten to_le_bytes
claim_pays_example =
    claim_pays banking banking-TransferPays banking-CreateCharges (Scenario.tx_of Scenario.alice)
      (Scenario.claim_accounts Scenario.alice 3) 3 500 Scenario.alice_proof ready
      (after alice_result) (event alice_result) alice_runs (λ e. omega (arith, ap first_byte e))
      (λ e. omega (arith, ap first_byte e)) (λ e. omega (arith, ap first_byte e))
