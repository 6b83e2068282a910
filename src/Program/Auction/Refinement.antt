-- ===== src/Program/Auction/Refinement.antt =====
-- Every instruction of programs/cols/src/lib.rs as a move of the auctions, or none.
use kolz_protocol.Base.{
  ℕ, ◌≡◌, refl, ap, sym, ◌∙◌, ◌⊎◌, inl, inr, true, Option, none, some, if◌then◌else◌, Bool-cases,
}
use kolz_protocol.Bytes.{Pubkey, bytes_eq}
use kolz_protocol.Bytes.Order.{bytes_eq→≡}
use kolz_protocol.Errors.{ok}
use kolz_protocol.Events.{Event}
use kolz_protocol.Runtime.{Runtime}
use kolz_protocol.State.King
use kolz_protocol.State.King.{KingOfHill}
use kolz_protocol.State.Pet.{Pet}
use kolz_protocol.State.Launch.{Launch}
use kolz_protocol.Chain.{
  Chain, Tx, Account, pet_account, launch_account, king_account, lookup, put, is_fresh, load_pet,
  load_launch,
}
use kolz_protocol.Chain.Lookup.{lookup-insert}
use kolz_protocol.Chain.Checks.{
  load_pet-lookup, load_launch-lookup, load_king-lookup, is_fresh-lookup,
}
use kolz_protocol.Program.{
  Instruction, process, Step, Reach, executes, elsewhere, init_config, oracle_bind_pumpfun_launch,
  mint_kol_nft, take_throne, settle_throne, commit_distribution_root, claim_holder_fees,
}
use kolz_protocol.Program.Accounts.{AllSound}
use kolz_protocol.Program.History.{genesis, genesis-AllSound}
use kolz_protocol.Program.Auction.{Phase, vacant, Move, view, phase, phase_of}
use kolz_protocol.Instructions.TakeThrone.Facts.{take_throne-Captures}
use kolz_protocol.Instructions.SettleThrone.Facts.{settle_throne-Settles}
use kolz_protocol.Instructions.InitConfig.Facts.{init_config-Inits}
use kolz_protocol.Instructions.BindLaunch.Facts.{oracle_bind_pumpfun_launch-Binds}
use kolz_protocol.Instructions.MintKolNft.Facts.{mint_kol_nft-Mints}
use kolz_protocol.Instructions.CommitDistributionRoot.Facts.{commit_distribution_root-Commits}
use kolz_protocol.Instructions.ClaimHolderFees.Facts.{claim_holder_fees-Claims}
use kolz_protocol.Program.Auction.Moves.{view-vacant, settled-Move, captured-Move}

-- What one instruction does to the auction at a key: nothing, or it makes it, or it is a move at the
-- slot of the clock.
abbrev pub Happens : {Ext : Type 0} → Runtime Ext → Chain Ext → Option Phase → Option Phase → Type 0
Happens rt chain before after =
    (after ≡ before)
    ⊎ ((before ≡ none) × (after ≡ some vacant))
    ⊎ ((now : ℕ) × (p p' : Phase) × (rt.clock_slot chain.ext ≡ some now)
        × (before ≡ some p)
        × (after ≡ some p')
        × Move now p p')

module _ {Ext : Type 0} where
  phase-put :
      (chain : Chain Ext) (at key : Pubkey) (x : Account)
      → phase (put at x chain) key
        ≡ (if bytes_eq at key then phase_of (some x) else phase chain key)
  unfolding put
  phase-put chain at key x = elim (Bool-cases (bytes_eq at key)) [
    | inl same ↦ ap phase_of (lookup-insert at key x chain.accounts) ∙ rw same refl
    | inr other ↦ ap phase_of (lookup-insert at key x chain.accounts) ∙ rw other refl
  ]

  -- A write that leaves the phase at its key alone leaves it alone at every key.
  put-quiet :
      (chain : Chain Ext) (at key : Pubkey) (x : Account)
      → phase chain at ≡ phase_of (some x)
      → phase (put at x chain) key ≡ phase chain key
  put-quiet chain at key x h = elim (Bool-cases (bytes_eq at key)) [
    | inl same ↦
        phase-put chain at key x ∙ (rw same (sym h)) ∙ ap (phase chain) (bytes_eq→≡ at key same)
    | inr other ↦ phase-put chain at key x ∙ rw other refl
  ]

  fresh-phase : (chain : Chain Ext) (at : Pubkey) → is_fresh chain at ≡ true → phase chain at ≡ none
  fresh-phase chain at h = ap phase_of (is_fresh-lookup chain at h)

  pet-phase :
      (chain : Chain Ext) (at : Pubkey) (pet default : Pet)
      → ((is_fresh chain at ≡ true) × (pet ≡ default)) ⊎ (load_pet chain at ≡ ok pet)
      → phase chain at ≡ none
  pet-phase chain at pet default (inl (fresh, e)) = fresh-phase chain at fresh
  pet-phase chain at pet default (inr was) = ap phase_of (load_pet-lookup chain at was)

  launch-phase :
      (chain : Chain Ext) (at : Pubkey) (launch default : Launch)
      → ((is_fresh chain at ≡ true) × (launch ≡ default)) ⊎ (load_launch chain at ≡ ok launch)
      → phase chain at ≡ none
  launch-phase chain at launch default (inl (fresh, e)) = fresh-phase chain at fresh
  launch-phase chain at launch default (inr was) = ap phase_of (load_launch-lookup chain at was)

  -- A throne that is written back after a move.
  put-Happens :
      (rt : Runtime Ext) (chain : Chain Ext) (ext : Ext) (at key : Pubkey) (k k' : KingOfHill)
      (now : ℕ)
      → lookup at chain.accounts ≡ some (king_account k)
      → rt.clock_slot chain.ext ≡ some now
      → Move now (view k) (view k')
      → Happens rt chain
          (phase chain key)
          (phase (put at (king_account k') (record chain { ext = ext })) key)
  put-Happens rt chain ext at key k k' now found clock move = elim (Bool-cases (bytes_eq at key)) [
    | inl same ↦ inr (
        inr (
          now,
          view k,
          view k',
          clock,
          ap (phase chain) (sym (bytes_eq→≡ at key same)) ∙ ap phase_of found,
          phase-put (record chain { ext = ext }) at key (king_account k') ∙ rw same refl,
          move,
        ))
    | inr other ↦
        inl (phase-put (record chain { ext = ext }) at key (king_account k') ∙ rw other refl)
  ]

module _ {Ext : Type 0} (rt : Runtime Ext) (tx : Tx) where
  process-Happens :
      (i : Instruction) (chain chain' : Chain Ext) (event : Event) (key : Pubkey)
      → AllSound rt chain
      → process rt tx i chain ≡ ok (chain', event)
      → Happens rt chain (phase chain key) (phase chain' key)
  unfolding process
  process-Happens (init_config a oracle fee) chain chain' event key valid h =
      let (bump, ext, f) = init_config-Inits rt tx a oracle fee chain chain' event h in
      rw f.result (
        inl (
          put-quiet (record chain { ext = ext }) a.config key _
            (fresh-phase chain a.config f.checked.fresh)))
  process-Happens (oracle_bind_pumpfun_launch a kol_name) chain chain' event key valid h =
      let (l, config, slot, pet, launch, f) =
        oracle_bind_pumpfun_launch-Binds rt tx a kol_name chain chain' event h in
      let start = record chain { ext = l.ext } in
      let first = λ (at : Pubkey).
        put-quiet start a.pet at (pet_account pet)
          (pet-phase chain a.pet l.pet _ f.checked.pet_was) in
      rw f.result (
        inl (
          put-quiet (put a.pet (pet_account pet) start) a.launch key (launch_account launch)
            (first a.launch ∙ launch-phase chain a.launch l.launch _ f.checked.launch_was)
          ∙ first key))
  process-Happens (mint_kol_nft a name symbol uri) chain chain' event key valid h =
      let (l, config, ext, f) = mint_kol_nft-Mints rt tx a name symbol uri chain chain' event h in
      let made =
        King.initialize King.default a.pet a.nft_mint a.escrow_vault l.king_bump l.escrow_bump in
      rw f.result (elim (Bool-cases (bytes_eq a.king key)) [
        | inl same ↦ inr (
            inl (
              ap (phase chain) (sym (bytes_eq→≡ a.king key same))
                  ∙ fresh-phase chain a.king f.checked.fresh,
              phase-put (record chain { ext = ext }) a.king key (king_account made)
                  ∙ rw same (ap some (view-vacant made refl refl)),
            ))
        | inr other ↦
            inl (
              phase-put (record chain { ext = ext }) a.king key (king_account made) ∙ rw other refl)
      ])
  process-Happens (take_throne a) chain chain' event key valid h =
      let (t, f) = take_throne-Captures rt tx a chain chain' event h in
      let found = load_king-lookup chain a.king f.throne in
      rw f.result (
        put-Happens rt chain t.approved a.king key t.king _ t.now found f.clock
          (captured-Move t f (valid a.king (king_account t.king) found).1))
  process-Happens (settle_throne a) chain chain' event key valid h =
      let (king, config, nft, slot, signers, revoked, f) =
        settle_throne-Settles rt tx a chain chain' event h in
      let found = load_king-lookup chain a.king f.checked.throne in
      rw f.result (
        put-Happens rt chain revoked a.king key king _ slot found f.clock (
          settled-Move king slot (valid a.king (king_account king) found).1 f.unsettled f.captured
            f.over))
  process-Happens (commit_distribution_root a epoch root pool) chain chain' event key valid h =
      let (config, bump, slot, ext, f) =
        commit_distribution_root-Commits rt tx a epoch root pool chain chain' event h in
      rw f.result (
        inl (
          put-quiet (record chain { ext = ext }) a.distribution key _
            (fresh-phase chain a.distribution f.checked.fresh)))
  process-Happens (claim_holder_fees a epoch amount proof) chain chain' event key valid h =
      let (l, signers, paid, slot, f) =
        claim_holder_fees-Claims rt tx a epoch amount proof chain chain' event h in
      rw f.result (
        inl (
          put-quiet (record chain { ext = paid }) a.holder_claim key _
            (fresh-phase chain a.holder_claim f.checked.fresh)))

-- The program implements the auctions: in any history from the empty store, each step leaves the
-- auction at a key as it is, or makes a vacant one where there was no throne, or is one of its moves
-- at the slot of the clock.
pub Step-Happens :
    {Ext : Type 0} (rt : Runtime Ext) (ext : Ext) {chain chain' : Chain Ext} (key : Pubkey)
    → Reach rt (genesis ext) chain
    → Step rt chain chain'
    → Happens rt chain (phase chain key) (phase chain' key)
Step-Happens rt ext {chain} {chain'} key r (executes tx i event h) =
    process-Happens rt tx i chain chain' event key (genesis-AllSound ext r) h
Step-Happens rt ext key r (elsewhere other) = inl refl
