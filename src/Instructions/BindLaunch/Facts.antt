-- ===== src/Instructions/BindLaunch/Facts.antt =====
-- What a call of `oracle_bind_pumpfun_launch` that has gone through shows.
use kolz_protocol.Base.{ℕ, ◌≡◌, inl, inr, true, some, [], ◌∷◌, arith, Option-cases}
use kolz_protocol.Bytes.{Bytes, bytes_eq}
use kolz_protocol.Constants.{pet_seed, launch_seed}
use kolz_protocol.Errors.{ok, Result-cases}
use kolz_protocol.Events.{Event}
use kolz_protocol.Runtime.{Runtime}
use kolz_protocol.State.Pet
use kolz_protocol.State.Launch
use kolz_protocol.State.Config.{Config}
use kolz_protocol.State.Pet.{Pet}
use kolz_protocol.State.Launch.{Launch}
use kolz_protocol.Chain.{
  Chain, Tx, pet_account, launch_account, put, contains, load_config, load_pet, load_launch,
  is_fresh, find_bump, check_signer, init_if_needed,
}
use kolz_protocol.Chain.Checks.{init_if_needed-ok}
use kolz_protocol.Base.{◌⊎◌}
use kolz_protocol.Instructions.BindLaunch.{
  Accounts, Loaded, try_accounts, bind_pet, bind_launch, handler, oracle_bind_pumpfun_launch,
}

module _ {Ext : Type 0} (rt : Runtime Ext) (tx : Tx) (a : Accounts) (kol_name : Bytes) where
  pub record Checked (chain : Chain Ext) (l : Loaded Ext) (config : Config) : Type 0 where
    pub signed : contains tx.signers a.oracle ≡ true
    pub configured : load_config chain a.config ≡ ok config
    pub oracle : bytes_eq config.oracle a.oracle ≡ true
    pub pet_was :
        ((is_fresh chain a.pet ≡ true) × (l.pet ≡ Pet.default)) ⊎ (load_pet chain a.pet ≡ ok l.pet)
    pub launch_was :
        ((is_fresh chain a.launch ≡ true) × (l.launch ≡ Launch.default))
        ⊎ (load_launch chain a.launch ≡ ok l.launch)
    pub pet_derived : find_bump rt (pet_seed ∷ a.kol_owner ∷ kol_name ∷ []) a.pet ≡ ok l.pet_bump
    pub launch_derived : find_bump rt (launch_seed ∷ a.pet ∷ []) a.launch ≡ ok l.launch_bump

  -- A call that goes through is signed by the configured oracle, and stores the bound pet and launch.
  pub record Binds (chain chain' : Chain Ext) (l : Loaded Ext) (config : Config) (slot : ℕ)
      (pet : Pet) (launch : Launch) : Type 0 where
    pub checked : Checked chain l config
    pub clock : rt.clock_slot l.ext ≡ some slot
    pub pet_bound : bind_pet rt tx a kol_name l slot ≡ ok pet
    pub launch_bound : bind_launch rt tx a kol_name l slot ≡ ok launch
    pub result :
        chain'
        ≡ put a.launch
            (launch_account launch)
            (put a.pet (pet_account pet) (record chain { ext = l.ext }))

  try_accounts-Checked :
      (chain : Chain Ext) (l : Loaded Ext)
      → try_accounts rt tx a kol_name chain ≡ ok l
      → (config : Config) × Checked chain l config
  unfolding try_accounts check_signer load_launch is_fresh
  try_accounts-Checked chain l h =
      elim (Result-cases (
        init_if_needed rt load_pet Pet.default a.oracle (pet_seed ∷ a.kol_owner ∷ kol_name ∷ [])
          a.pet Pet.size chain)) [
            | inr (x, e) ↦ absurd (ground arith)
            | inl ((pet, pet_bump, ext), e) ↦
                elim (Result-cases (
                  init_if_needed rt load_launch Launch.default a.oracle (launch_seed ∷ a.pet ∷ [])
                    a.launch Launch.size (record chain { ext = ext }))) [
                      | inr (x, f) ↦ absurd (ground arith)
                      | inl ((launch, launch_bump, ext'), f) ↦
                          elim (Result-cases (load_config chain a.config)) [
                            | inr (x, g) ↦ absurd (ground arith)
                            | inl (config, g) ↦ (
                              config,
                              ground (
                                arith,
                                init_if_needed-ok rt load_pet Pet.default a.oracle
                                    (pet_seed ∷ a.kol_owner ∷ kol_name ∷ []) a.pet Pet.size chain
                                    pet pet_bump ext,
                                init_if_needed-ok rt load_launch Launch.default a.oracle
                                    (launch_seed ∷ a.pet ∷ []) a.launch Launch.size
                                    (record chain { ext = ext }) launch launch_bump ext',
                              ),
                            )
                          ]
                    ]
          ]

  handler-Binds :
      (chain chain' : Chain Ext) (event : Event) (l : Loaded Ext) (config : Config)
      → Checked chain l config
      → handler rt tx a kol_name l chain ≡ ok (chain', event)
      → (slot : ℕ) × (pet : Pet) × (launch : Launch) × Binds chain chain' l config slot pet launch
  unfolding handler
  handler-Binds chain chain' event l config c h = elim (Option-cases (rt.clock_slot l.ext)) [
    | inl e ↦ absurd (ground arith)
    | inr (slot, e) ↦ elim (Result-cases (bind_pet rt tx a kol_name l slot)) [
      | inr (x, f) ↦ absurd (ground arith)
      | inl (pet, f) ↦ elim (Result-cases (bind_launch rt tx a kol_name l slot)) [
        | inr (x, g) ↦ absurd (ground arith)
        | inl (launch, g) ↦ (slot, pet, launch, ground arith)
      ]
    ]
  ]

  pub oracle_bind_pumpfun_launch-Binds :
      (chain chain' : Chain Ext) (event : Event)
      → oracle_bind_pumpfun_launch rt tx a kol_name chain ≡ ok (chain', event)
      → (l : Loaded Ext) × (config : Config) × (slot : ℕ) × (pet : Pet) × (launch : Launch) × Binds
          chain chain' l config slot pet launch
  unfolding oracle_bind_pumpfun_launch
  oracle_bind_pumpfun_launch-Binds chain chain' event h =
      elim (Result-cases (try_accounts rt tx a kol_name chain)) [
        | inr (x, e) ↦ absurd (ground arith)
        | inl (l, e) ↦
            let (config, checked) = try_accounts-Checked chain l e in
            let (slot, pet, launch, binds) =
              handler-Binds chain chain' event l config checked (rw e at h) in
            (l, config, slot, pet, launch, binds)
      ]
