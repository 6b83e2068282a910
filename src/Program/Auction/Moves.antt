-- ===== src/Program/Auction/Moves.antt =====
-- A capture and a settlement as moves of the auction: programs/cols/src/instructions/take_throne.rs
-- and settle_throne.rs.
use kolz_protocol.Base.{ℕ, ◌≤◌, ◌<◌, ◌≡◌, ◌≢◌, refl, inl, inr, true, false, arith}
use kolz_protocol.Runtime.{Runtime}
use kolz_protocol.State.King.{KingOfHill}
use kolz_protocol.Chain.{Chain, Tx}
use kolz_protocol.Utils.{saturating_add}
use kolz_protocol.Program.Throne.{IsValid, captured-deadline}
use kolz_protocol.Program.Auction.{vacant, reigning, closed, Move, opens, overbids, closes, view}
use kolz_protocol.Instructions.TakeThrone
use kolz_protocol.Instructions.TakeThrone.{captured}
use kolz_protocol.Instructions.TakeThrone.Facts.{Captures, Trace}

pub view-vacant : (k : KingOfHill) → k.settled ≡ false → k.take_overs ≡ 0 → view k ≡ vacant
unfolding view
view-vacant k s t = ground arith

view-reigning :
    (k : KingOfHill)
    → k.settled ≡ false
    → 0 < k.take_overs
    → view k ≡ reigning k.current_champion k.champion_balance k.settles_at_slot
unfolding view
view-reigning k s t = ground arith

view-closed : (k : KingOfHill) → k.settled ≡ true → view k ≡ closed k.current_champion
unfolding view
view-closed k s = ground arith

pub settled-Move :
    (k : KingOfHill) (now : ℕ)
    → IsValid k
    → k.settled ≡ false
    → k.settles_at_slot ≢ 0
    → k.settles_at_slot ≤ now
    → Move now (view k) (view (record k { settled = true }))
settled-Move k now v unsettled captured over =
    rw
      (
        view-reigning k unsettled (ground (arith, v.vacant)),
        view-closed (record k { settled = true }) refl,
      )
      (closes k.current_champion k.champion_balance k.settles_at_slot over)

module _ {Ext : Type 0} {rt : Runtime Ext} {tx : Tx} {a : TakeThrone.Accounts}
    {chain chain' : Chain Ext} where
  pub captured-Move :
      (t : Trace rt tx a)
      → Captures rt tx a chain chain' t
      → IsValid t.king
      → Move t.now
          (view t.king)
          (view (captured rt tx a t.king t.holding.amount t.now t.settles_at_slot))
  unfolding captured saturating_add
  captured-Move t c v =
      let after =
        view-reigning (captured rt tx a t.king t.holding.amount t.now t.settles_at_slot) c.unsettled
          (ground (arith, v.take_overs_fits)) in
      let (in_time, window) = captured-deadline t c v in
      elim window [
        | inl (first, deadline) ↦
            rw (view-vacant t.king c.unsettled first, after, deadline)
              (opens a.challenger t.holding.amount (omega (arith, c.more)))
        | inr (later, deadline) ↦
            rw (view-reigning t.king c.unsettled later, after, deadline)
              (overbids t.king.current_champion a.challenger t.king.champion_balance
                t.holding.amount t.king.settles_at_slot c.more (rw deadline at in_time))
      ]
