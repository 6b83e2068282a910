-- ===== src/Program/Throne.antt =====
-- The life of a throne: the well-formed throne, and how calls may change it.
use kolz_protocol.Base.{ℕ, ◌+◌, ◌≤◌, ◌<◌, ◌≢◌, ◌≡◌, ◌∙◌, ◌⊎◌, true, false, arith}
use kolz_protocol.Bytes.{Pubkey, bytes_eq}
use kolz_protocol.Bytes.Order.{bytes_eq_refl}
use kolz_protocol.Constants.{system_program_id, u32_bound, u64_bound, throne_settlement_slots}
use kolz_protocol.Runtime.{Runtime}
use kolz_protocol.State.King
use kolz_protocol.State.King.{KingOfHill, is_unclaimed}
use kolz_protocol.Chain.{Chain, Tx}
use kolz_protocol.Utils.{saturating_add, checked_add}
use kolz_protocol.Instructions.TakeThrone.{Accounts, deadline, captured}
use kolz_protocol.Instructions.TakeThrone.Facts.{Captures, Trace}

-- A throne with no capture has the sentinel for its champion, no balance, no deadline, and is not
-- settled; one with a capture has a champion with a balance, and a deadline after its last capture.
pub record IsValid (k : KingOfHill) : Type 0 where
  pub vacant :
      k.take_overs ≡ 0
      → (bytes_eq k.current_champion system_program_id ≡ true)
        × (k.champion_balance ≡ 0)
        × (k.settles_at_slot ≡ 0)
        × (k.settled ≡ false)
  pub held :
      0 < k.take_overs
      → (bytes_eq k.current_champion system_program_id ≡ false)
        × (0 < k.champion_balance)
        × (k.last_captured_slot < k.settles_at_slot)
  pub take_overs_fits : k.take_overs < u32_bound
  pub deadline_fits : k.settles_at_slot < u64_bound

-- What no call may undo.
pub record Evolves (k k' : KingOfHill) : Type 0 where
  pub same_pet : k'.pet ≡ k.pet
  pub same_mint : k'.nft_mint ≡ k.nft_mint
  pub same_vault : k'.nft_escrow_vault ≡ k.nft_escrow_vault
  pub balance_grows : k.champion_balance ≤ k'.champion_balance
  pub take_overs_grow : k.take_overs ≤ k'.take_overs
  pub deadline_stays : (k.settles_at_slot ≡ 0) ⊎ (k'.settles_at_slot ≡ k.settles_at_slot)
  pub settled_stays : k.settled ≡ true → k' ≡ k

pub Evolves-refl : (k : KingOfHill) → Evolves k k
Evolves-refl k = ground arith

pub Evolves-trans : (j k l : KingOfHill) → Evolves j k → Evolves k l → Evolves j l
Evolves-trans j k l p q = record {
  same_pet = q.same_pet ∙ p.same_pet;
  same_mint = q.same_mint ∙ p.same_mint;
  same_vault = q.same_vault ∙ p.same_vault;
  balance_grows = omega arith;
  take_overs_grow = omega arith;
  deadline_stays = ground arith;
  settled_stays = λ s. ground (arith, p.settled_stays s, q.settled_stays);
}

-- The throne that `mint_kol_nft` makes.
pub initialize-IsValid :
    (pet nft_mint nft_escrow_vault : Pubkey) (bump nft_escrow_vault_bump : ℕ)
    → IsValid
        (King.initialize King.default pet nft_mint nft_escrow_vault bump nft_escrow_vault_bump)
initialize-IsValid pet nft_mint nft_escrow_vault bump nft_escrow_vault_bump =
    ground (arith, bytes_eq_refl system_program_id)

module _ {Ext : Type 0} {rt : Runtime Ext} {tx : Tx} {a : Accounts} {chain chain' : Chain Ext} where
  pub captured-IsValid :
      (t : Trace rt tx a)
      → Captures rt tx a chain chain' t
      → IsValid t.king
      → IsValid (captured rt tx a t.king t.holding.amount t.now t.settles_at_slot)
  unfolding captured deadline saturating_add checked_add is_unclaimed
  captured-IsValid t c v = ground arith

  pub captured-Evolves :
      (t : Trace rt tx a)
      → Captures rt tx a chain chain' t
      → IsValid t.king
      → Evolves t.king (captured rt tx a t.king t.holding.amount t.now t.settles_at_slot)
  unfolding captured deadline saturating_add checked_add is_unclaimed
  captured-Evolves t c v = ground arith

  -- The deadline after a capture.
  pub captured-deadline :
      (t : Trace rt tx a)
      → Captures rt tx a chain chain' t
      → IsValid t.king
      → (t.now < t.settles_at_slot)
        × (((t.king.take_overs ≡ 0) × (t.settles_at_slot ≡ t.now + throne_settlement_slots))
            ⊎ ((0 < t.king.take_overs) × (t.settles_at_slot ≡ t.king.settles_at_slot)))
  unfolding deadline checked_add is_unclaimed
  captured-deadline t c v = ground arith

pub settled-IsValid :
    (k : KingOfHill) → IsValid k → k.settles_at_slot ≢ 0 → IsValid (record k { settled = true })
settled-IsValid k v h = ground arith

pub settled-Evolves : (k : KingOfHill) → k.settled ≡ false → Evolves k (record k { settled = true })
settled-Evolves k h = ground arith
