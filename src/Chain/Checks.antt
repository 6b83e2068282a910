-- ===== src/Chain/Checks.antt =====
-- What the checks of the account declarations show when they pass.
use kolz_protocol.Base.{ℕ, ◌≡◌, true, none, some, List, Bool-cases, ◌⊎◌, inl, inr, arith}
use kolz_protocol.Bytes.{Bytes, Pubkey}
use kolz_protocol.Errors.{Result, ok}
use kolz_protocol.Runtime.{Runtime}
use kolz_protocol.State.Config.{Config}
use kolz_protocol.State.Pet.{Pet}
use kolz_protocol.State.Launch.{Launch}
use kolz_protocol.State.King.{KingOfHill}
use kolz_protocol.State.Distribution.{Distribution}
use kolz_protocol.Chain.{
  Chain, config_account, pet_account, launch_account, king_account, distribution_account, lookup,
  is_fresh, load_config, load_pet, load_launch, load_king, load_distribution, find_bump,
  init_account, init_if_needed,
}

module _ {Ext : Type 0} (chain : Chain Ext) (key : Pubkey) where
  pub load_config-lookup :
      {c : Config}
      → load_config chain key ≡ ok c
      → lookup key chain.accounts ≡ some (config_account c)
  unfolding load_config
  load_config-lookup h = ground arith

  pub load_pet-lookup :
      {p : Pet} → load_pet chain key ≡ ok p → lookup key chain.accounts ≡ some (pet_account p)
  unfolding load_pet
  load_pet-lookup h = ground arith

  pub load_launch-lookup :
      {l : Launch}
      → load_launch chain key ≡ ok l
      → lookup key chain.accounts ≡ some (launch_account l)
  unfolding load_launch
  load_launch-lookup h = ground arith

  pub load_king-lookup :
      {k : KingOfHill}
      → load_king chain key ≡ ok k
      → lookup key chain.accounts ≡ some (king_account k)
  unfolding load_king
  load_king-lookup h = ground arith

  pub load_distribution-lookup :
      {d : Distribution}
      → load_distribution chain key ≡ ok d
      → lookup key chain.accounts ≡ some (distribution_account d)
  unfolding load_distribution
  load_distribution-lookup h = ground arith

  pub is_fresh-lookup : is_fresh chain key ≡ true → lookup key chain.accounts ≡ none
  unfolding is_fresh
  is_fresh-lookup h = ground arith

module _ {Ext : Type 0} (rt : Runtime Ext) where
  pub init_account-ok :
      (payer : Pubkey) (seeds : List Bytes) (key : Pubkey) (space : ℕ) (chain : Chain Ext)
      (created : ℕ × Ext)
      → init_account rt payer seeds key space chain ≡ ok created
      → (find_bump rt seeds key ≡ ok created.0)
        × (is_fresh chain key ≡ true)
        × (rt.create_account payer key space chain.ext ≡ some created.1)
  unfolding init_account
  init_account-ok payer seeds key space chain created h = ground arith

  -- The account is the one in the store, or the default where the store has none.
  pub init_if_needed-ok :
      {A : Type 0} (load : Chain Ext → Pubkey → Result A) (default : A) (payer : Pubkey)
      (seeds : List Bytes) (key : Pubkey) (space : ℕ) (chain : Chain Ext) (account : A) (bump : ℕ)
      (ext : Ext)
      → init_if_needed rt load default payer seeds key space chain ≡ ok (account, bump, ext)
      → (((is_fresh chain key ≡ true) × (account ≡ default)) ⊎ (load chain key ≡ ok account))
        × (find_bump rt seeds key ≡ ok bump)
  unfolding init_if_needed
  init_if_needed-ok load default payer seeds key space chain account bump ext h =
      elim (Bool-cases (is_fresh chain key)) [ inl fresh ↦ ground arith | inr old ↦ ground arith ]
