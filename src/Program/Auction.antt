-- ===== src/Program/Auction.antt =====
-- A throne as what it promises, an ascending auction with a deadline, and the instructions of
-- programs/cols/src/lib.rs as its moves.
pub mod Moves
pub mod Refinement
use kolz_protocol.Base.{ℕ, ◌+◌, ◌≤◌, ◌<◌, ◌==◌, Option, none, some, if◌then◌else◌}
use kolz_protocol.Bytes.{Pubkey}
use kolz_protocol.Constants.{throne_settlement_slots}
use kolz_protocol.State.King.{KingOfHill}
use kolz_protocol.Chain.{
  Chain, Account, config_account, pet_account, launch_account, king_account, distribution_account,
  holder_claim_account, lookup,
}

-- Nobody has captured the throne; someone has, for a balance, until a deadline; it is settled.
pub data Phase : Type 0 where
  vacant : Phase
  reigning : Pubkey → ℕ → ℕ → Phase
  closed : Pubkey → Phase

-- What may happen to the auction at a slot: the first capture sets the deadline, a later one before
-- the deadline has a larger balance, and from the deadline on the auction can be closed.
pub data Move (now : ℕ) : Phase → Phase → Type 0 where
  opens :
      (champion : Pubkey) (balance : ℕ)
      → 0 < balance
      → Move now vacant (reigning champion balance (now + throne_settlement_slots))
  overbids :
      (old champion : Pubkey) (low balance deadline : ℕ)
      → low < balance
      → now < deadline
      → Move now (reigning old low deadline) (reigning champion balance deadline)
  closes :
      (champion : Pubkey) (balance deadline : ℕ)
      → deadline ≤ now
      → Move now (reigning champion balance deadline) (closed champion)

-- The abstract view of a throne; the addresses, the vault and the counters are forgotten.
unfoldable pub view : KingOfHill → Phase
view k =
    if k.settled
    then closed k.current_champion
    else if k.take_overs == 0
    then vacant
    else reigning k.current_champion k.champion_balance k.settles_at_slot

abbrev pub phase_of : Option Account → Option Phase
phase_of (some (king_account k)) = some (view k)
phase_of (some (config_account c)) = none
phase_of (some (pet_account p)) = none
phase_of (some (launch_account l)) = none
phase_of (some (distribution_account d)) = none
phase_of (some (holder_claim_account h)) = none
phase_of none = none

-- The auction at a key, if there is a throne.
abbrev pub phase : {Ext : Type 0} → Chain Ext → Pubkey → Option Phase
phase chain key = phase_of (lookup key chain.accounts)
