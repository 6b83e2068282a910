-- ===== src/Instructions/BindLaunch.antt =====
-- programs/cols/src/instructions/bind_launch.rs
pub mod Facts
use kolz_protocol.Base.{ℕ, [], ◌∷◌, if◌then◌else◌}
use kolz_protocol.Bytes.{Bytes, Pubkey, bytes_eq, default_pubkey}
use kolz_protocol.Constants.{config_seed, launch_seed, pet_seed, system_program_id}
use kolz_protocol.Errors.{
  Result, ok, ◌>>=◌, ◌>>◌, require, ok_or, call_failed, oracle_mismatch, pet_mismatch,
  mint_mismatch, unauthorized, name_too_long,
}
use kolz_protocol.Events.{Event, launch_bound}
use kolz_protocol.Runtime.{Runtime}
use kolz_protocol.State.Pet
use kolz_protocol.State.Launch
use kolz_protocol.State.Pet.{Pet}
use kolz_protocol.State.Launch.{Launch}
use kolz_protocol.Chain.{
  Chain, Tx, pet_account, launch_account, put, load_config, load_pet, load_launch, check_signer,
  check_mut, check_program, check_seeds, init_if_needed,
}

-- The keys that the instruction is given, in the order of the declaration.
pub record Accounts : Type 0 where
  pub oracle : Pubkey
  pub kol_owner : Pubkey
  pub pump_mint : Pubkey
  pub pet : Pubkey
  pub launch : Pubkey
  pub config : Pubkey
  pub system_program : Pubkey

-- The two accounts as loaded or as created, their bumps, and the state of the other programs.
pub record Loaded (Ext : Type 0) : Type 0 where
  pub pet : Pet
  pub pet_bump : ℕ
  pub launch : Launch
  pub launch_bump : ℕ
  pub ext : Ext

module _ {Ext : Type 0} (rt : Runtime Ext) (tx : Tx) (a : Accounts) (kol_name : Bytes) where
  -- `#[derive(Accounts)]` of `OracleBindPumpfunLaunch`.
  unfoldable pub try_accounts : Chain Ext → Result (Loaded Ext)
  try_accounts chain = do
    check_signer tx a.oracle
    config ← load_config chain a.config
    check_program system_program_id a.system_program
    (pet, pet_bump, ext) ←
        init_if_needed rt load_pet Pet.default a.oracle (pet_seed ∷ a.kol_owner ∷ kol_name ∷ [])
          a.pet Pet.size chain
    check_mut tx a.pet
    (launch, launch_bump, ext') ←
        init_if_needed rt load_launch Launch.default a.oracle (launch_seed ∷ a.pet ∷ []) a.launch
          Launch.size (record chain { ext = ext })
    check_mut tx a.launch
    check_mut tx a.oracle
    check_seeds rt (config_seed ∷ []) config.bump a.config
    require (bytes_eq config.oracle a.oracle) oracle_mismatch
    ok (record {
      pet = pet;
      pet_bump = pet_bump;
      launch = launch;
      launch_bump = launch_bump;
      ext = ext';
    })

  -- The pet: filled in on first touch, else checked.
  unfoldable pub bind_pet : Loaded Ext → ℕ → Result Pet
  bind_pet l slot =
      if bytes_eq l.pet.owner default_pubkey
      then ok (Pet.initialize l.pet a.kol_owner kol_name slot l.pet_bump)
      else (do
        require (bytes_eq l.pet.owner a.kol_owner) unauthorized
        require (bytes_eq l.pet.kol_name kol_name) name_too_long
        ok l.pet)

  -- The launch: filled in on first touch, else its slot is refreshed for the same mint.
  unfoldable pub bind_launch : Loaded Ext → ℕ → Result Launch
  bind_launch l slot =
      if bytes_eq l.launch.pet default_pubkey
      then ok (Launch.initialize l.launch a.pet a.pump_mint slot l.launch_bump)
      else (do
        require (bytes_eq l.launch.pet a.pet) pet_mismatch
        require (bytes_eq l.launch.pump_mint a.pump_mint) mint_mismatch
        ok (record l.launch { bonded_slot = slot }))

  unfoldable pub handler : Loaded Ext → Chain Ext → Result (Chain Ext × Event)
  handler l chain = do
    slot ← ok_or (rt.clock_slot l.ext) call_failed
    pet ← bind_pet l slot
    launch ← bind_launch l slot
    ok (
      put a.launch (launch_account launch)
          (put a.pet (pet_account pet) (record chain { ext = l.ext })),
      launch_bound (record {
        pet = a.pet;
        kol_owner = a.kol_owner;
        pump_mint = a.pump_mint;
        bonded_slot = slot;
      }),
    )

  unfoldable pub oracle_bind_pumpfun_launch : Chain Ext → Result (Chain Ext × Event)
  unfolding try_accounts handler
  oracle_bind_pumpfun_launch chain = do loaded ← try_accounts chain; handler loaded chain
