-- ===== src/Program/Evolution.antt =====
-- What each instruction of programs/cols/src/lib.rs does to the accounts in the store.
use kolz_protocol.Base.{ℕ, ◌≡◌, refl, ◌∙◌, sym, inl, inr, ◌⊎◌, true, some, [], ◌∷◌, arith, subst}
use kolz_protocol.Bytes.{Bytes, Pubkey, bytes_eq}
use kolz_protocol.Constants.{pet_seed, launch_seed}
use kolz_protocol.Errors.{ok}
use kolz_protocol.Runtime.{Runtime}
use kolz_protocol.Events.{Event}
use kolz_protocol.State.Config.{Config}
use kolz_protocol.State.Pet
use kolz_protocol.State.Launch
use kolz_protocol.State.Pet.{Pet}
use kolz_protocol.State.Launch.{Launch}
use kolz_protocol.State.King.{KingOfHill}
use kolz_protocol.Chain.{
  Chain, Tx, Account, pet_account, launch_account, king_account, lookup, put, is_fresh, find_bump,
  load_pet, load_launch, load_king,
}
use kolz_protocol.Chain.Checks.{load_pet-lookup, load_launch-lookup, load_king-lookup}
use kolz_protocol.Program.{
  Instruction, process, Step, executes, elsewhere, init_config, oracle_bind_pumpfun_launch,
  mint_kol_nft, take_throne, settle_throne, commit_distribution_root, claim_holder_fees,
}
use kolz_protocol.Program.Throne
use kolz_protocol.Program.Throne.{
  IsValid, initialize-IsValid, captured-IsValid, captured-Evolves, settled-IsValid, settled-Evolves,
}
use kolz_protocol.Instructions.InitConfig.Facts.{init_config-Inits}
use kolz_protocol.Instructions.BindLaunch
use kolz_protocol.Instructions.BindLaunch.{bind_pet, bind_launch}
use kolz_protocol.Instructions.BindLaunch.Facts.{Binds, oracle_bind_pumpfun_launch-Binds}
use kolz_protocol.Instructions.MintKolNft.Facts.{mint_kol_nft-Mints}
use kolz_protocol.Instructions.TakeThrone.{captured}
use kolz_protocol.Instructions.TakeThrone.Facts.{take_throne-Captures}
use kolz_protocol.Instructions.SettleThrone.Facts.{settle_throne-Settles}
use kolz_protocol.Instructions.CommitDistributionRoot.Facts.{commit_distribution_root-Commits}
use kolz_protocol.Instructions.ClaimHolderFees.Facts.{claim_holder_fees-Claims}
use kolz_protocol.Program.Accounts.{
  Evolves, IsSound, AllSound, Keeps, Evolves-refl, put-Keeps, put-put-Keeps, put-AllSound,
  fresh-allowed,
}

-- What one event keeps.
pub record IsKept {Ext : Type 0} (rt : Runtime Ext) (chain chain' : Chain Ext) : Type 0 where
  pub keeps : Keeps chain chain'
  pub sound : AllSound rt chain'

module _ {Ext : Type 0} (rt : Runtime Ext) (chain : Chain Ext) (at : Pubkey) (account : Account)
    (ext : Ext) where
  write-IsKept :
      AllSound rt chain
      → IsSound rt at account
      → ((old : Account) → lookup at chain.accounts ≡ some old → Evolves old account)
      → IsKept rt chain (put at account (record chain { ext = ext }))
  write-IsKept valid sound allowed = record {
    keeps = put-Keeps chain at account ext allowed;
    sound = put-AllSound rt chain at account ext sound valid;
  }

-- A throne that is written back after a call.
throne-allowed :
    {Ext : Type 0} (chain : Chain Ext) (at : Pubkey) (k k' : KingOfHill)
    → load_king chain at ≡ ok k
    → Throne.Evolves k k'
    → (old : Account) → lookup at chain.accounts ≡ some old
    → Evolves old (king_account k')
throne-allowed chain at k k' h e old found =
    subst (λ x. Evolves x (king_account k'))
      (some-eq old k (sym (load_king-lookup chain at h) ∙ found)) (k', refl, e)
  where
    some-eq : (x : Account) (j : KingOfHill) → some (king_account j) ≡ some x → king_account j ≡ x
    some-eq x j p = cc

module _ {Ext : Type 0} (rt : Runtime Ext) (tx : Tx) where
  pet-allowed :
      (a : BindLaunch.Accounts) (kol_name : Bytes) (chain : Chain Ext) (l : BindLaunch.Loaded Ext)
      (pet : Pet) (slot : ℕ)
      → ((is_fresh chain a.pet ≡ true) × (l.pet ≡ Pet.default)) ⊎ (load_pet chain a.pet ≡ ok l.pet)
      → bind_pet rt tx a kol_name l slot ≡ ok pet
      → (old : Account) → lookup a.pet chain.accounts ≡ some old
      → Evolves old (pet_account pet)
  unfolding bind_pet
  pet-allowed a kol_name chain l pet slot (inl (fresh, _)) e old found =
      fresh-allowed chain a.pet (pet_account pet) fresh old found
  pet-allowed a kol_name chain l pet slot (inr was) e old found =
      subst (λ x. Evolves x (pet_account pet))
        (some-eq old (sym (load_pet-lookup chain a.pet was) ∙ found)) (pet, refl, ground arith)
    where
      some-eq : (x : Account) → some (pet_account l.pet) ≡ some x → pet_account l.pet ≡ x
      some-eq x p = cc

  pet-IsSound :
      (a : BindLaunch.Accounts) (kol_name : Bytes) (chain : Chain Ext) (l : BindLaunch.Loaded Ext)
      (pet : Pet) (slot : ℕ)
      → AllSound rt chain
      → ((is_fresh chain a.pet ≡ true) × (l.pet ≡ Pet.default)) ⊎ (load_pet chain a.pet ≡ ok l.pet)
      → find_bump rt (pet_seed ∷ a.kol_owner ∷ kol_name ∷ []) a.pet ≡ ok l.pet_bump
      → bind_pet rt tx a kol_name l slot ≡ ok pet
      → IsSound rt a.pet (pet_account pet)
  unfolding bind_pet bytes_eq
  pet-IsSound a kol_name chain l pet slot valid (inl (_, e)) derived h = ground arith
  pet-IsSound a kol_name chain l pet slot valid (inr was) derived h =
      ground (arith, valid a.pet (pet_account l.pet) (load_pet-lookup chain a.pet was))

  launch-IsSound :
      (a : BindLaunch.Accounts) (kol_name : Bytes) (chain : Chain Ext) (l : BindLaunch.Loaded Ext)
      (launch : Launch) (slot : ℕ)
      → AllSound rt chain
      → ((is_fresh chain a.launch ≡ true) × (l.launch ≡ Launch.default))
        ⊎ (load_launch chain a.launch ≡ ok l.launch)
      → find_bump rt (launch_seed ∷ a.pet ∷ []) a.launch ≡ ok l.launch_bump
      → bind_launch rt tx a kol_name l slot ≡ ok launch
      → IsSound rt a.launch (launch_account launch)
  unfolding bind_launch bytes_eq
  launch-IsSound a kol_name chain l launch slot valid (inl (_, e)) derived h = ground arith
  launch-IsSound a kol_name chain l launch slot valid (inr was) derived h =
      ground
        (arith, valid a.launch (launch_account l.launch) (load_launch-lookup chain a.launch was))

  launch-allowed :
      (a : BindLaunch.Accounts) (kol_name : Bytes) (chain : Chain Ext) (l : BindLaunch.Loaded Ext)
      (launch : Launch) (slot : ℕ)
      → ((is_fresh chain a.launch ≡ true) × (l.launch ≡ Launch.default))
        ⊎ (load_launch chain a.launch ≡ ok l.launch)
      → bind_launch rt tx a kol_name l slot ≡ ok launch
      → (old : Account) → lookup a.launch chain.accounts ≡ some old
      → Evolves old (launch_account launch)
  unfolding bind_launch
  launch-allowed a kol_name chain l launch slot (inl (fresh, _)) e old found =
      fresh-allowed chain a.launch (launch_account launch) fresh old found
  launch-allowed a kol_name chain l launch slot (inr was) e old found =
      subst (λ x. Evolves x (launch_account launch))
        (some-eq old (sym (load_launch-lookup chain a.launch was) ∙ found))
        (launch, refl, ground arith)
    where
      some-eq :
          (x : Account) → some (launch_account l.launch) ≡ some x → launch_account l.launch ≡ x
      some-eq x p = cc

  bind-IsKept :
      (a : BindLaunch.Accounts) (kol_name : Bytes) (chain chain' : Chain Ext)
      (l : BindLaunch.Loaded Ext) (config : Config) (slot : ℕ) (pet : Pet) (launch : Launch)
      → AllSound rt chain
      → Binds rt tx a kol_name chain chain' l config slot pet launch
      → IsKept rt chain chain'
  bind-IsKept a kol_name chain chain' l config slot pet launch valid b = rw b.result (record {
    keeps =
        put-put-Keeps chain a.pet a.launch (pet_account pet) (launch_account launch) l.ext
          (pet-allowed a kol_name chain l pet slot b.checked.pet_was b.pet_bound)
          (launch-allowed a kol_name chain l launch slot b.checked.launch_was b.launch_bound);
    sound =
        put-AllSound rt (put a.pet (pet_account pet) (record chain { ext = l.ext })) a.launch
          (launch_account launch) (put a.pet (pet_account pet) (record chain { ext = l.ext })).ext
          (launch-IsSound a kol_name chain l launch slot valid b.checked.launch_was
            b.checked.launch_derived b.launch_bound)
          (put-AllSound rt chain a.pet (pet_account pet) l.ext
            (pet-IsSound a kol_name chain l pet slot valid b.checked.pet_was b.checked.pet_derived
              b.pet_bound)
            valid);
  })

  process-IsKept :
      (i : Instruction) (chain chain' : Chain Ext) (event : Event)
      → AllSound rt chain
      → process rt tx i chain ≡ ok (chain', event)
      → IsKept rt chain chain'
  unfolding process captured
  process-IsKept (init_config a oracle fee) chain chain' event valid h =
      let (bump, ext, f) = init_config-Inits rt tx a oracle fee chain chain' event h in
      rw f.result (
        write-IsKept rt chain a.config _ ext valid f.checked.derived
          (fresh-allowed chain a.config _ f.checked.fresh))
  process-IsKept (oracle_bind_pumpfun_launch a kol_name) chain chain' event valid h =
      let (l, config, slot, pet, launch, f) =
        oracle_bind_pumpfun_launch-Binds rt tx a kol_name chain chain' event h in
      bind-IsKept a kol_name chain chain' l config slot pet launch valid f
  process-IsKept (mint_kol_nft a name symbol uri) chain chain' event valid h =
      let (l, config, ext, f) = mint_kol_nft-Mints rt tx a name symbol uri chain chain' event h in
      rw f.result (
        write-IsKept rt chain a.king _ ext valid
          (
            f.checked.derived,
            initialize-IsValid a.pet a.nft_mint a.escrow_vault l.king_bump l.escrow_bump,
          )
          (fresh-allowed chain a.king _ f.checked.fresh))
  process-IsKept (take_throne a) chain chain' event valid h =
      let (t, f) = take_throne-Captures rt tx a chain chain' event h in
      let was = valid a.king (king_account t.king) (load_king-lookup chain a.king f.throne) in
      rw f.result (
        write-IsKept rt chain a.king _ t.approved valid (was.0, captured-IsValid t f was.1)
          (throne-allowed chain a.king t.king _ f.throne (captured-Evolves t f was.1)))
  process-IsKept (settle_throne a) chain chain' event valid h =
      let (king, config, nft, slot, signers, revoked, f) =
        settle_throne-Settles rt tx a chain chain' event h in
      let was = valid a.king (king_account king) (load_king-lookup chain a.king f.checked.throne) in
      rw f.result (
        write-IsKept rt chain a.king _ revoked valid (was.0, settled-IsValid king was.1 f.captured)
          (throne-allowed chain a.king king _ f.checked.throne (settled-Evolves king f.unsettled)))
  process-IsKept (commit_distribution_root a epoch root pool) chain chain' event valid h =
      let (config, bump, slot, ext, f) =
        commit_distribution_root-Commits rt tx a epoch root pool chain chain' event h in
      rw f.result (
        write-IsKept rt chain a.distribution _ ext valid f.checked.derived
          (fresh-allowed chain a.distribution _ f.checked.fresh))
  process-IsKept (claim_holder_fees a epoch amount proof) chain chain' event valid h =
      let (l, signers, paid, slot, f) =
        claim_holder_fees-Claims rt tx a epoch amount proof chain chain' event h in
      rw f.result (
        write-IsKept rt chain a.holder_claim _ paid valid f.checked.derived
          (fresh-allowed chain a.holder_claim _ f.checked.fresh))

-- No event breaks a throne, removes an account, changes its kind, or changes a config, a committed
-- root or a receipt.
pub Step-IsKept :
    {Ext : Type 0} {rt : Runtime Ext} {chain chain' : Chain Ext}
    → Step rt chain chain'
    → AllSound rt chain
    → IsKept rt chain chain'
Step-IsKept {rt} (executes tx i event h) valid = process-IsKept rt tx i _ _ event valid h
Step-IsKept (elsewhere ext) valid = record {
  keeps = λ key old h. (old, h, Evolves-refl old);
  sound = valid;
}
