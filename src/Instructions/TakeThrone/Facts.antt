-- ===== src/Instructions/TakeThrone/Facts.antt =====
-- What a call of `take_throne` that has gone through shows: its checks, and the throne it leaves.
use kolz_protocol.Base.{ℕ, ◌<◌, ◌≡◌, inl, inr, ◌⊎◌, true, false, some, arith, Option-cases}
use kolz_protocol.Bytes.{bytes_eq}
use kolz_protocol.Constants.{system_program_id}
use kolz_protocol.Errors.{ok, Result-cases}
use kolz_protocol.Events.{Event}
use kolz_protocol.Runtime.{Runtime, TokenAccount}
use kolz_protocol.State.King.{KingOfHill, is_unclaimed}
use kolz_protocol.Chain.{
  Chain, Tx, king_account, put, contains, load_king, load_token, check_signer,
}
use kolz_protocol.Instructions.TakeThrone.{
  Accounts, Loaded, try_accounts, move_nft, deadline, captured, handler, take_throne,
}

module _ {Ext : Type 0} (rt : Runtime Ext) (tx : Tx) (a : Accounts) where
  -- The accounts of a call that has gone through.
  pub record Checked (chain : Chain Ext) (l : Loaded) : Type 0 where
    pub signed : contains tx.signers a.challenger ≡ true
    pub throne : load_king chain a.king ≡ ok l.king
    pub holding : load_token rt chain.ext a.challenger_pump_ata ≡ ok l.challenger_pump_ata
    pub own : bytes_eq l.challenger_pump_ata.owner a.challenger ≡ true
    pub coin : bytes_eq l.challenger_pump_ata.mint a.pump_mint ≡ true
    pub of_pet : bytes_eq l.king.pet a.pet ≡ true

  pub try_accounts-Checked :
      (chain : Chain Ext) (l : Loaded) → try_accounts rt tx a chain ≡ ok l → Checked chain l
  unfolding try_accounts check_signer
  try_accounts-Checked chain l h = ground arith

  -- What the call reads and makes on its way: the throne, the challenger's holding, the slot, the
  -- deadline, and the states of the other programs after the transfer and after the approval.
  pub record Trace : Type 0 where
    pub king : KingOfHill
    pub holding : TokenAccount
    pub prev_holding : TokenAccount
    pub now : ℕ
    pub settles_at_slot : ℕ
    pub moved : Ext
    pub approved : Ext

  pub record Captures (chain : Chain Ext) (chain' : Chain Ext) (t : Trace) : Type 0 where
    pub signed : contains tx.signers a.challenger ≡ true
    pub throne : load_king chain a.king ≡ ok t.king
    pub of_pet : bytes_eq t.king.pet a.pet ≡ true
    pub own : load_token rt chain.ext a.challenger_pump_ata ≡ ok t.holding
    pub own_owner : bytes_eq t.holding.owner a.challenger ≡ true
    pub own_coin : bytes_eq t.holding.mint a.pump_mint ≡ true
    pub clock : rt.clock_slot chain.ext ≡ some t.now
    pub unsettled : t.king.settled ≡ false
    pub in_time : (t.king.settles_at_slot ≡ 0) ⊎ (t.now < t.king.settles_at_slot)
    pub more : t.king.champion_balance < t.holding.amount
    pub window : deadline rt tx a t.king (is_unclaimed t.king) t.now ≡ ok t.settles_at_slot
    pub taken :
        move_nft rt tx a
          (record {
            king = t.king;
            challenger_pump_ata = t.holding;
            prev_champion_nft_ata = t.prev_holding;
          })
          (is_unclaimed t.king)
          chain.ext
        ≡ ok t.moved
    pub delegated :
        rt.approve a.challenger_nft_ata a.king a.challenger 1 tx.signers t.moved ≡ some t.approved
    pub not_sentinel : bytes_eq a.challenger system_program_id ≡ false
    pub result :
        chain'
        ≡ put a.king
            (king_account (captured rt tx a t.king t.holding.amount t.now t.settles_at_slot))
            (record chain { ext = t.approved })

  handler-Captures :
      (chain : Chain Ext) (l : Loaded) (chain' : Chain Ext) (event : Event)
      → Checked chain l
      → handler rt tx a l chain ≡ ok (chain', event)
      → (t : Trace) × Captures chain chain' t
  unfolding handler captured
  handler-Captures chain l chain' event c h = elim (Option-cases (rt.clock_slot chain.ext)) [
    | inl e ↦ absurd (ground arith)
    | inr (now, clock) ↦ elim (Result-cases (move_nft rt tx a l (is_unclaimed l.king) chain.ext)) [
      | inr (x, e) ↦ absurd (ground arith)
      | inl (moved, taken) ↦
          elim (Option-cases
            (rt.approve a.challenger_nft_ata a.king a.challenger 1 tx.signers moved)) [
              | inl e ↦ absurd (ground arith)
              | inr (approved, delegated) ↦
                  elim (Result-cases (deadline rt tx a l.king (is_unclaimed l.king) now)) [
                    | inr (x, e) ↦ absurd (ground arith)
                    | inl (d, window) ↦ (
                      record {
                        king = l.king;
                        holding = l.challenger_pump_ata;
                        prev_holding = l.prev_champion_nft_ata;
                        now = now;
                        settles_at_slot = d;
                        moved = moved;
                        approved = approved;
                      },
                      ground arith,
                    )
                  ]
            ]
    ]
  ]

  -- A call of `take_throne` that goes through.
  pub take_throne-Captures :
      (chain : Chain Ext) (chain' : Chain Ext) (event : Event)
      → take_throne rt tx a chain ≡ ok (chain', event)
      → (t : Trace) × Captures chain chain' t
  unfolding take_throne
  take_throne-Captures chain chain' event h = elim (Result-cases (try_accounts rt tx a chain)) [
    | inl (l, e) ↦
        handler-Captures chain l chain' event (try_accounts-Checked chain l e) (rw e at h)
    | inr (x, e) ↦ absurd (ground arith)
  ]
