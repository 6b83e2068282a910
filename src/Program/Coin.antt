-- ===== src/Program/Coin.antt =====
-- Which coin decides about a throne: the launch that programs/cols/src/instructions/bind_launch.rs
-- has stored, at the captures of take_throne.rs.
use kolz_protocol.Base.{ℕ, true, ◌≡◌, ◌≢◌, sym, ◌∙◌, ap, subst, inl, inr, some, [], ◌∷◌, arith}
use kolz_protocol.Bytes.{Pubkey, bytes_eq, default_pubkey}
use kolz_protocol.Bytes.Order.{bytes_eq→≡}
use kolz_protocol.Constants.{launch_seed}
use kolz_protocol.Errors.{ok, Result-cases}
use kolz_protocol.Events.{Event}
use kolz_protocol.Runtime.{Runtime, TokenAccount}
use kolz_protocol.State.Launch.{Launch}
use kolz_protocol.State.King.{KingOfHill}
use kolz_protocol.Chain.{
  Chain, Tx, launch_account, king_account, lookup, find_bump, load_launch, load_token,
}
use kolz_protocol.Chain.Checks.{load_launch-lookup, load_king-lookup}
use kolz_protocol.Program.{Reach}
use kolz_protocol.Program.Accounts.{AllSound}
use kolz_protocol.Program.History.{Reach-IsKept, genesis, genesis-AllSound}
use kolz_protocol.Instructions.TakeThrone.Facts.{take_throne-Captures}
use kolz_protocol.Instructions.TakeThrone.{Accounts, Loaded, try_accounts, take_throne}

-- At most one key is derived from the same seeds.
find_bump_unique :
    {Ext : Type 0} (rt : Runtime Ext) (p q key at : Pubkey) {m n : ℕ}
    → find_bump rt (launch_seed ∷ p ∷ []) key ≡ ok m
    → find_bump rt (launch_seed ∷ q ∷ []) at ≡ ok n
    → p ≡ q
    → key ≡ at
unfolding find_bump
find_bump_unique rt p q key at f g same =
    let k = (rt.find_program_address (launch_seed ∷ p ∷ [])).0 in
    let j = (rt.find_program_address (launch_seed ∷ q ∷ [])).0 in
    let moved : k ≡ j = ap (λ x. (rt.find_program_address (launch_seed ∷ x ∷ [])).0) same in
    sym (bytes_eq→≡ k key (ground arith)) ∙ moved ∙ bytes_eq→≡ j at (ground arith)

module _ {Ext : Type 0} (rt : Runtime Ext) (tx : Tx) (a : Accounts) where
  -- What a call of `take_throne` asks of the launch.
  record OfCoin (chain : Chain Ext) (launch : Launch) : Type 0 where
    there : load_launch chain a.launch ≡ ok launch
    of_pet : bytes_eq launch.pet a.pet ≡ true
    coin : bytes_eq a.pump_mint launch.pump_mint ≡ true

  try_accounts-OfCoin :
      (chain : Chain Ext) (l : Loaded)
      → try_accounts rt tx a chain ≡ ok l
      → (launch : Launch) × OfCoin chain launch
  unfolding try_accounts
  try_accounts-OfCoin chain l h = elim (Result-cases (load_launch chain a.launch)) [
    | inr (x, e) ↦ absurd (ground arith)
    | inl (launch, e) ↦ (launch, ground arith)
  ]

  take_throne-OfCoin :
      (chain chain' : Chain Ext) (event : Event)
      → take_throne rt tx a chain ≡ ok (chain', event)
      → (launch : Launch) × OfCoin chain launch
  unfolding take_throne
  take_throne-OfCoin chain chain' event h = elim (Result-cases (try_accounts rt tx a chain)) [
    | inr (x, e) ↦ absurd (ground arith)
    | inl (l, e) ↦ try_accounts-OfCoin chain l e
  ]

launch_injective : (l m : Launch) → some (launch_account l) ≡ some (launch_account m) → l ≡ m
launch_injective l m e = cc

module _ {Ext : Type 0} (rt : Runtime Ext) where
  -- A bound launch keeps its pet and its coin.
  launch_stays :
      (ext : Ext) {chain later : Chain Ext} (key : Pubkey) (l : Launch)
      → Reach rt (genesis ext) chain
      → lookup key chain.accounts ≡ some (launch_account l)
      → l.pet ≢ default_pubkey
      → Reach rt chain later
      → (m : Launch) × (lookup key later.accounts ≡ some (launch_account m))
        × (m.pet ≡ l.pet)
        × (m.pump_mint ≡ l.pump_mint)
  launch_stays ext {later = later} key l r found bound s =
      let (new, found', (m, e, evolves)) =
        (Reach-IsKept s (genesis-AllSound ext r)).keeps key (launch_account l) found in
      let there = subst (λ x. lookup key later.accounts ≡ some x) e found' in
      elim evolves [
        | inl unbound ↦ absurd (bound (bytes_eq→≡ l.pet default_pubkey unbound))
        | inr kept ↦
            (m, there, ap (λ (x : Launch). x.pet) kept, ap (λ (x : Launch). x.pump_mint) kept)
      ]

  -- The launches of one pet are one.
  same_launch :
      (chain : Chain Ext) (key at : Pubkey) (l m : Launch)
      → AllSound rt chain
      → lookup key chain.accounts ≡ some (launch_account l)
      → lookup at chain.accounts ≡ some (launch_account m)
      → l.pet ≡ m.pet
      → l ≡ m
  same_launch chain key at l m sound found there same =
      let one =
        find_bump_unique rt l.pet m.pet key at (sound key (launch_account l) found)
          (sound at (launch_account m) there) same in
      launch_injective l m (sym found ∙ ap (λ x. lookup x chain.accounts) one ∙ there)

  -- In any history from the empty store: once a launch is stored whose pet is not the default key, a
  -- capture that goes through at any later time, of a throne that names this pet, rests on a token
  -- account of this launch's coin that the challenger owns, whatever accounts the call names.
  pub capture_of_coin :
      (ext : Ext) {chain later after : Chain Ext} (key : Pubkey) (l : Launch) (event : Event)
      (tx : Tx) (a : Accounts)
      → Reach rt (genesis ext) chain
      → lookup key chain.accounts ≡ some (launch_account l)
      → l.pet ≢ default_pubkey
      → Reach rt chain later
      → take_throne rt tx a later ≡ ok (after, event)
      → a.pet ≡ l.pet
      → (k : KingOfHill) × (holding : TokenAccount) × (lookup a.king later.accounts
          ≡ some (king_account k))
        × (k.pet ≡ l.pet)
        × (rt.token_account later.ext a.challenger_pump_ata ≡ some holding)
        × (holding.owner ≡ a.challenger)
        × (holding.mint ≡ l.pump_mint)
  unfolding load_token
  capture_of_coin ext {chain} {later} {after} key l event tx a r found bound s h same =
      let (launch, c) = take_throne-OfCoin rt tx a later after event h in
      let (t, f) = take_throne-Captures rt tx a later after event h in
      let (m, there, pet_kept, coin_kept) = launch_stays ext key l r found bound s in
      let named = bytes_eq→≡ launch.pet a.pet c.of_pet in
      let one =
        same_launch later key a.launch m launch (Reach-IsKept s (genesis-AllSound ext r)).sound
          there (load_launch-lookup later a.launch c.there) (pet_kept ∙ sym same ∙ sym named) in
      (
        t.king,
        t.holding,
        load_king-lookup later a.king f.throne,
        bytes_eq→≡ t.king.pet a.pet f.of_pet ∙ same,
        ground arith,
        bytes_eq→≡ t.holding.owner a.challenger f.own_owner,
        bytes_eq→≡ t.holding.mint a.pump_mint f.own_coin
            ∙ bytes_eq→≡ a.pump_mint launch.pump_mint c.coin
            ∙ sym (ap (λ (x : Launch). x.pump_mint) one)
            ∙ coin_kept,
      )
