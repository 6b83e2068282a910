-- ===== src/Tests/Custody.antt =====
-- A runtime whose token program moves tokens, and Bob's capture on it.
use kolz_protocol.Base.{
  ℕ, ◌+◌, ◌-◌, ◌≡◌, refl, ap, sym, ◌∙◌, false, Option, none, some, List, [], ◌∷◌, if◌then◌else◌,
  leb, arith, Bool-cases, inl, inr,
}
use kolz_protocol.Bytes.{Bytes, Pubkey, bytes_eq, to_le_bytes, bytes_le}
use kolz_protocol.Bytes.Order.{bytes_eq→≡, bytes_eq_refl}
use kolz_protocol.Errors.{Result, ok, err}
use kolz_protocol.Events.{Event}
use kolz_protocol.Runtime.{Runtime, TokenAccount}
use kolz_protocol.State.King
use kolz_protocol.State.King.{KingOfHill, is_unclaimed}
use kolz_protocol.Merkle
use kolz_protocol.Utils
use kolz_protocol.Instructions.InitConfig
use kolz_protocol.Instructions.BindLaunch
use kolz_protocol.Instructions.MintKolNft
use kolz_protocol.Instructions.SettleThrone
use kolz_protocol.Instructions.CommitDistributionRoot
use kolz_protocol.Instructions.ClaimHolderFees
use kolz_protocol.Program.{process}
use kolz_protocol.Merkle.Membership.{entry_leaf}
use kolz_protocol.Chain
use kolz_protocol.Program.Custody.{
  TransferMoves, ApproveKeeps, source_of, TokenMoves, capture_takes_nft,
}
use kolz_protocol.Instructions.TakeThrone
use kolz_protocol.Tests.World
use kolz_protocol.Tests.World.{World, toy, key}
use kolz_protocol.Tests.Scenario
use kolz_protocol.Tests.History
use kolz_protocol.Tests.History.{Ledger, chain_of, event_of}

abbrev first_byte : Bytes → ℕ
first_byte [] = 0
first_byte (b ∷ bytes) = b

-- One account after a transfer.
unfoldable pub shifted : Pubkey → Pubkey → ℕ → Pubkey → TokenAccount → TokenAccount
shifted source target n at t =
    if bytes_eq source at
    then record t { amount = t.amount - n }
    else if bytes_eq target at
    then record t { amount = t.amount + n }
    else t

unfoldable pub move_tokens :
    Pubkey → Pubkey → ℕ → List (Pubkey × TokenAccount) → List (Pubkey × TokenAccount)
unfolding shifted
move_tokens source target n [] = []
move_tokens source target n ((at, t) ∷ tokens) =
    (at, shifted source target n at t) ∷ move_tokens source target n tokens

abbrev amount_of : Option TokenAccount → ℕ
amount_of none = 0
amount_of (some t) = t.amount

unfoldable pub transfer_tokens : Pubkey → Pubkey → ℕ → World → Option World
unfolding move_tokens World.find_token
transfer_tokens source target n world =
    if leb n (amount_of (World.find_token world.tokens source))
    then some (record world { tokens = move_tokens source target n world.tokens })
    else none

abbrev moving : Runtime World
moving = record (toy false) {
  transfer =
      λ source target authority amount signers world. transfer_tokens source target amount world;
}

find_token-move_tokens :
    (source target : Pubkey) (n : ℕ) (tokens : List (Pubkey × TokenAccount)) (at : Pubkey)
    (t : TokenAccount)
    → World.find_token tokens at ≡ some t
    → World.find_token (move_tokens source target n tokens) at ≡ some (shifted source target n at t)
unfolding move_tokens World.find_token
find_token-move_tokens source target n [] at t h = absurd (ground arith)
find_token-move_tokens source target n ((k, x) ∷ tokens) at t h =
    elim (Bool-cases (bytes_eq k at)) [
      | inl same ↦
          let here : k ≡ at = bytes_eq→≡ k at same in
          let it : some x ≡ some t = rw same at h in rw same (cc)
      | inr other ↦ rw other (find_token-move_tokens source target n tokens at t (rw other at h))
    ]

moving-TransferMoves : TransferMoves moving
unfolding transfer_tokens shifted
moving-TransferMoves source target authority n signers world world' s t h apart there mine =
    ground (
      arith,
      bytes_eq_refl source,
      bytes_eq_refl target,
      bytes_eq→≡ source target,
      find_token-move_tokens source target n world.tokens source s there,
      find_token-move_tokens source target n world.tokens target t mine,
    )

moving-ApproveKeeps : ApproveKeeps moving
moving-ApproveKeeps account delegate authority n signers world world' at h =
    let same : world' ≡ world = cc in ap (λ (w : World). World.find_token w.tokens at) same

abbrev king_or_default : Result KingOfHill → KingOfHill
king_or_default (ok k) = k
king_or_default (err e) = King.default

-- The throne that Alice holds.
abbrev alice_throne : KingOfHill
alice_throne = king_or_default (Chain.load_king History.taken Scenario.king)

alice_throne-loaded : Chain.load_king History.taken Scenario.king ≡ ok alice_throne
unfolding process InitConfig.init_config BindLaunch.oracle_bind_pumpfun_launch BindLaunch.bind_pet
    BindLaunch.bind_launch MintKolNft.mint_kol_nft TakeThrone.take_throne TakeThrone.move_nft
    TakeThrone.deadline TakeThrone.captured SettleThrone.settle_throne
    CommitDistributionRoot.commit_distribution_root ClaimHolderFees.claim_holder_fees
    Chain.check_signer Chain.check_mut Chain.check_program Chain.check_sysvar Chain.check_mint
    Chain.check_seeds Chain.find_bump Chain.init_account Chain.init_if_needed Chain.signers_with
    Chain.load_config Chain.load_pet Chain.load_launch Chain.load_king Chain.load_distribution
    Chain.load_token Chain.is_fresh Chain.lookup Chain.contains Chain.put Chain.insert bytes_eq
    to_le_bytes Utils.check_fee_bps Utils.check_metadata_lengths Utils.saturating_add
    Utils.checked_add is_unclaimed World.flatten World.roll World.find_token World.revoke_as
    World.owns Merkle.proof_for Merkle.root Merkle.verify_merkle_proof
    Merkle.compute_distribution_leaf Merkle.leaf_preimage Merkle.pair_preimage entry_leaf bytes_le
alice_throne-loaded = refl

abbrev bob_result : Result (Ledger × Event)
bob_result =
    TakeThrone.take_throne moving (Scenario.tx_of Scenario.bob) Scenario.bob_takes History.taken

bob_runs : bob_result ≡ ok (chain_of History.taken bob_result, event_of bob_result)
unfolding process InitConfig.init_config BindLaunch.oracle_bind_pumpfun_launch BindLaunch.bind_pet
    BindLaunch.bind_launch MintKolNft.mint_kol_nft TakeThrone.take_throne TakeThrone.move_nft
    TakeThrone.deadline TakeThrone.captured SettleThrone.settle_throne
    CommitDistributionRoot.commit_distribution_root ClaimHolderFees.claim_holder_fees
    Chain.check_signer Chain.check_mut Chain.check_program Chain.check_sysvar Chain.check_mint
    Chain.check_seeds Chain.find_bump Chain.init_account Chain.init_if_needed Chain.signers_with
    Chain.load_config Chain.load_pet Chain.load_launch Chain.load_king Chain.load_distribution
    Chain.load_token Chain.is_fresh Chain.lookup Chain.contains Chain.put Chain.insert bytes_eq
    to_le_bytes Utils.check_fee_bps Utils.check_metadata_lengths Utils.saturating_add
    Utils.checked_add is_unclaimed World.flatten World.roll World.find_token World.revoke_as
    World.owns Merkle.proof_for Merkle.root Merkle.verify_merkle_proof
    Merkle.compute_distribution_leaf Merkle.leaf_preimage Merkle.pair_preimage entry_leaf bytes_le
    transfer_tokens
bob_runs = refl

from_alice : source_of moving Scenario.bob_takes alice_throne ≡ key 10
unfolding process InitConfig.init_config BindLaunch.oracle_bind_pumpfun_launch BindLaunch.bind_pet
    BindLaunch.bind_launch MintKolNft.mint_kol_nft TakeThrone.take_throne TakeThrone.move_nft
    TakeThrone.deadline TakeThrone.captured SettleThrone.settle_throne
    CommitDistributionRoot.commit_distribution_root ClaimHolderFees.claim_holder_fees
    Chain.check_signer Chain.check_mut Chain.check_program Chain.check_sysvar Chain.check_mint
    Chain.check_seeds Chain.find_bump Chain.init_account Chain.init_if_needed Chain.signers_with
    Chain.load_config Chain.load_pet Chain.load_launch Chain.load_king Chain.load_distribution
    Chain.load_token Chain.is_fresh Chain.lookup Chain.contains Chain.put Chain.insert bytes_eq
    to_le_bytes Utils.check_fee_bps Utils.check_metadata_lengths Utils.saturating_add
    Utils.checked_add is_unclaimed World.flatten World.roll World.find_token World.revoke_as
    World.owns Merkle.proof_for Merkle.root Merkle.verify_merkle_proof
    Merkle.compute_distribution_leaf Merkle.leaf_preimage Merkle.pair_preimage entry_leaf bytes_le
from_alice = refl

capture_takes_nft_example :
    TokenMoves moving
      (Scenario.tx_of Scenario.bob)
      Scenario.bob_takes
      alice_throne
      History.taken
      (chain_of History.taken bob_result)
capture_takes_nft_example =
    capture_takes_nft moving (Scenario.tx_of Scenario.bob) Scenario.bob_takes moving-TransferMoves
      moving-ApproveKeeps History.taken (chain_of History.taken bob_result) (event_of bob_result)
      alice_throne bob_runs alice_throne-loaded
      (λ e. omega (arith, ap first_byte (sym from_alice ∙ e)))
