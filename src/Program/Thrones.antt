-- ===== src/Program/Thrones.antt =====
-- Captures and settlement over histories: programs/cols/src/instructions/take_throne.rs and
-- settle_throne.rs.
use kolz_protocol.Base.{
  ℕ, ◌≡◌, refl, ◌≢◌, ◌∙◌, sym, ap, ◌⊎◌, true, false, some, ◌+◌, ◌<◌, arith, subst,
}
use kolz_protocol.Bytes.{Pubkey}
use kolz_protocol.Bytes.Order.{bytes_eq→≡}
use kolz_protocol.Constants.{throne_settlement_slots}
use kolz_protocol.Errors.{ok}
use kolz_protocol.Events.{Event}
use kolz_protocol.Runtime.{Runtime, TokenAccount}
use kolz_protocol.State.King.{KingOfHill}
use kolz_protocol.Chain.{Chain, Tx, king_account, lookup, contains, load_king, load_token}
use kolz_protocol.Chain.Checks.{load_king-lookup}
use kolz_protocol.Program.{Reach}
use kolz_protocol.Program.Throne
use kolz_protocol.Program.Throne.{IsValid, captured-deadline}
use kolz_protocol.Program.Stored.{stores}
use kolz_protocol.Program.History.{Reach-IsKept, genesis, genesis-AllSound}
use kolz_protocol.Instructions.TakeThrone
use kolz_protocol.Instructions.TakeThrone.{take_throne, deadline, captured}
use kolz_protocol.Instructions.TakeThrone.Facts.{take_throne-Captures}
use kolz_protocol.Instructions.SettleThrone
use kolz_protocol.Instructions.SettleThrone.{settle_throne}
use kolz_protocol.Instructions.SettleThrone.Facts.{settle_throne-Settles}

king_injective : (j k : KingOfHill) → some (king_account j) ≡ some (king_account k) → j ≡ k
king_injective j k e = cc

module _ {Ext : Type 0} (rt : Runtime Ext) where
  -- In any history from the empty store a throne stays at its key: its pet, mint and vault never
  -- change, the champion's balance and the take-overs never fall, a deadline once set stays, and a
  -- settled throne does not change at all.
  pub throne-Evolves :
      (ext : Ext) {chain later : Chain Ext} (key : Pubkey) (k : KingOfHill)
      → Reach rt (genesis ext) chain
      → Reach rt chain later
      → lookup key chain.accounts ≡ some (king_account k)
      → (k' : KingOfHill) × (lookup key later.accounts ≡ some (king_account k'))
        × Throne.Evolves k k'
  throne-Evolves ext {later = later} key k r s found =
      let (new, found', (k', e, evolves)) =
        (Reach-IsKept s (genesis-AllSound ext r)).keeps key (king_account k) found in
      (k', subst (λ x. lookup key later.accounts ≡ some x) e found', evolves)

  -- A capture that goes through, in a history from the empty store: the challenger signed and owns
  -- the named account of the named coin, with more in it than the champion's balance on record; the slot is before the
  -- deadline, if there is one; the throne that is stored has the challenger for its champion with
  -- that holding, and its deadline is the old one, or at the first capture one settlement period
  -- from now.
  pub capture_outholds :
      (ext : Ext) {chain chain' : Chain Ext} (event : Event) (tx : Tx) (a : TakeThrone.Accounts)
      → Reach rt (genesis ext) chain
      → take_throne rt tx a chain ≡ ok (chain', event)
      → (k k' : KingOfHill) × (holding : TokenAccount) × (now : ℕ) × (lookup a.king chain.accounts
          ≡ some (king_account k))
        × (lookup a.king chain'.accounts ≡ some (king_account k'))
        × (contains tx.signers a.challenger ≡ true)
        × (rt.token_account chain.ext a.challenger_pump_ata ≡ some holding)
        × (holding.owner ≡ a.challenger)
        × (holding.mint ≡ a.pump_mint)
        × (rt.clock_slot chain.ext ≡ some now)
        × (k.champion_balance < holding.amount)
        × (k'.current_champion ≡ a.challenger)
        × (k'.champion_balance ≡ holding.amount)
        × (now < k'.settles_at_slot)
        × (((k.take_overs ≡ 0) × (k'.settles_at_slot ≡ now + throne_settlement_slots))
            ⊎ ((0 < k.take_overs) × (k'.settles_at_slot ≡ k.settles_at_slot)))
  unfolding captured load_token
  capture_outholds ext {chain} {chain'} event tx a r h =
      let (t, f) = take_throne-Captures rt tx a chain chain' event h in
      let was = load_king-lookup chain a.king f.throne in
      let valid = (genesis-AllSound ext r a.king (king_account t.king) was).1 in
      let (in_time, window) = captured-deadline t f valid in
      (
        t.king,
        captured rt tx a t.king t.holding.amount t.now t.settles_at_slot,
        t.holding,
        t.now,
        was,
        stores rt (record chain { ext = t.approved }) chain' a.king _ f.result,
        f.signed,
        ground arith,
        bytes_eq→≡ t.holding.owner a.challenger f.own_owner,
        bytes_eq→≡ t.holding.mint a.pump_mint f.own_coin,
        f.clock,
        f.more,
        refl,
        refl,
        in_time,
        window,
      )

  settled_here :
      (ext : Ext) {chain later : Chain Ext} (key at : Pubkey) (k j : KingOfHill)
      → Reach rt (genesis ext) chain
      → lookup key chain.accounts ≡ some (king_account k)
      → k.settled ≡ true
      → Reach rt chain later
      → at ≡ key
      → load_king later at ≡ ok j
      → j.settled ≢ false
  settled_here ext {chain} {later} key at k j r found settled s same loaded unsettled =
      let (k', found', evolves) = throne-Evolves ext key k r s found in
      let e : j ≡ k' = king_injective j k' (
        sym (load_king-lookup later at loaded) ∙ ap (λ x. lookup x later.accounts) same ∙ found') in
      absurd
        (ground (arith, ap (λ (x : KingOfHill). x.settled) (e ∙ evolves.settled_stays settled)))

  -- In any history from the empty store no one captures a settled throne.
  pub no_capture_after_settlement :
      (ext : Ext) {chain later : Chain Ext} (key : Pubkey) (k : KingOfHill) (tx : Tx)
      (a : TakeThrone.Accounts) (after : Chain Ext) (event : Event)
      → Reach rt (genesis ext) chain
      → lookup key chain.accounts ≡ some (king_account k)
      → k.settled ≡ true
      → Reach rt chain later
      → a.king ≡ key
      → take_throne rt tx a later ≢ ok (after, event)
  no_capture_after_settlement ext {later = later} key k tx a after event r found settled s same h =
      let (t, f) = take_throne-Captures rt tx a later after event h in
      settled_here ext key a.king k t.king r found settled s same f.throne f.unsettled

  -- In any history from the empty store no one settles a settled throne.
  pub settle_once :
      (ext : Ext) {chain later : Chain Ext} (key : Pubkey) (k : KingOfHill) (tx : Tx)
      (a : SettleThrone.Accounts) (after : Chain Ext) (event : Event)
      → Reach rt (genesis ext) chain
      → lookup key chain.accounts ≡ some (king_account k)
      → k.settled ≡ true
      → Reach rt chain later
      → a.king ≡ key
      → settle_throne rt tx a later ≢ ok (after, event)
  settle_once ext {later = later} key k tx a after event r found settled s same h =
      let (king, config, nft, slot, signers, revoked, f) =
        settle_throne-Settles rt tx a later after event h in
      settled_here ext key a.king k king r found settled s same f.checked.throne f.unsettled
