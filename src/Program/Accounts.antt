-- ===== src/Program/Accounts.antt =====
-- How an account may change, and what one write to the store keeps.
use kolz_protocol.Base.{
  ◌≡◌, refl, ◌∙◌, inl, inr, ◌⊎◌, true, some, [], ◌∷◌, if◌then◌else◌, arith, Bool-cases, subst,
}
use kolz_protocol.Bytes.{Pubkey, bytes_eq, default_pubkey, to_le_bytes}
use kolz_protocol.Bytes.Order.{bytes_eq→≡}
use kolz_protocol.Errors.{ok}
use kolz_protocol.Constants.{
  config_seed, pet_seed, launch_seed, king_seed, distribution_seed, holder_claim_seed,
}
use kolz_protocol.Runtime.{Runtime}
use kolz_protocol.State.Pet.{Pet}
use kolz_protocol.State.Launch.{Launch}
use kolz_protocol.State.King.{KingOfHill}
use kolz_protocol.Chain.{
  Chain, Account, config_account, pet_account, launch_account, king_account, distribution_account,
  holder_claim_account, lookup, insert, put, is_fresh, find_bump,
}
use kolz_protocol.Chain.Lookup.{lookup-insert}
use kolz_protocol.Chain.Checks.{is_fresh-lookup}
use kolz_protocol.Program.Throne
use kolz_protocol.Program.Throne.{
  IsValid, initialize-IsValid, captured-IsValid, captured-Evolves, settled-IsValid, settled-Evolves,
}

-- A pet is filled in once; a bound launch only has its slot refreshed.
abbrev pub PetEvolves : Pet → Pet → Type 0
PetEvolves p p' = (bytes_eq p.owner default_pubkey ≡ true) ⊎ (p' ≡ p)

abbrev pub LaunchEvolves : Launch → Launch → Type 0
LaunchEvolves l l' =
    (bytes_eq l.pet default_pubkey ≡ true) ⊎ (l' ≡ record l { bonded_slot = l'.bonded_slot })

-- How an account may change: its kind never does; a config, a root and a receipt do not at all.
abbrev pub Evolves : Account → Account → Type 0
Evolves (config_account c) b = b ≡ config_account c
Evolves (pet_account p) b = (p' : Pet) × (b ≡ pet_account p') × PetEvolves p p'
Evolves (launch_account l) b = (l' : Launch) × (b ≡ launch_account l') × LaunchEvolves l l'
Evolves (king_account k) b = (k' : KingOfHill) × (b ≡ king_account k') × Throne.Evolves k k'
Evolves (distribution_account d) b = b ≡ distribution_account d
Evolves (holder_claim_account r) b = b ≡ holder_claim_account r

pub Evolves-refl : (x : Account) → Evolves x x
Evolves-refl (config_account c) = refl
Evolves-refl (pet_account p) = (p, refl, inr refl)
Evolves-refl (launch_account l) = (l, refl, inr refl)
Evolves-refl (king_account k) = (k, refl, Throne.Evolves-refl k)
Evolves-refl (distribution_account d) = refl
Evolves-refl (holder_claim_account r) = refl

-- An account stands at the address that is derived from its fields, with the bump that it records,
-- and a throne is well-formed.
abbrev pub IsSound : {Ext : Type 0} → Runtime Ext → Pubkey → Account → Type 0
IsSound rt key (config_account c) = find_bump rt (config_seed ∷ []) key ≡ ok c.bump
IsSound rt key (pet_account p) = find_bump rt (pet_seed ∷ p.owner ∷ p.kol_name ∷ []) key ≡ ok p.bump
IsSound rt key (launch_account l) = find_bump rt (launch_seed ∷ l.pet ∷ []) key ≡ ok l.bump
IsSound rt key (king_account k) =
    (find_bump rt (king_seed ∷ k.pet ∷ []) key ≡ ok k.bump) × IsValid k
IsSound rt key (distribution_account d) =
    find_bump rt (distribution_seed ∷ to_le_bytes 8 d.epoch ∷ []) key ≡ ok d.bump
IsSound rt key (holder_claim_account r) =
    find_bump rt (holder_claim_seed ∷ r.holder ∷ to_le_bytes 8 r.epoch ∷ []) key ≡ ok r.bump

module _ {Ext : Type 0} where
  abbrev pub AllSound : Runtime Ext → Chain Ext → Type 0
  AllSound rt chain =
      (key : Pubkey) (x : Account) → lookup key chain.accounts ≡ some x → IsSound rt key x

  -- Every account is kept, and has evolved.
  abbrev pub Keeps : Chain Ext → Chain Ext → Type 0
  Keeps chain chain' =
      (key : Pubkey) (old : Account)
      → lookup key chain.accounts ≡ some old
      → (new : Account) × (lookup key chain'.accounts ≡ some new) × Evolves old new

  pub put-Keeps :
      (chain : Chain Ext) (at : Pubkey) (account : Account) (ext : Ext)
      → ((old : Account) → lookup at chain.accounts ≡ some old → Evolves old account)
      → Keeps chain (put at account (record chain { ext = ext }))
  unfolding put
  put-Keeps chain at account ext allowed key old h = elim (Bool-cases (bytes_eq at key)) [
    | inl same ↦ (
      account,
      lookup-insert at key account chain.accounts ∙ rw same refl,
      allowed old (rw (bytes_eq→≡ at key same) h),
    )
    | inr other ↦ (old, lookup-insert at key account chain.accounts ∙ rw other h, Evolves-refl old)
  ]

  -- Two writes of one call, each allowed by what was there before it.
  pub put-put-Keeps :
      (chain : Chain Ext) (first second : Pubkey) (x y : Account) (ext : Ext)
      → ((old : Account) → lookup first chain.accounts ≡ some old → Evolves old x)
      → ((old : Account) → lookup second chain.accounts ≡ some old → Evolves old y)
      → Keeps chain (put second y (put first x (record chain { ext = ext })))
  unfolding put
  put-put-Keeps chain first second x y ext allow_x allow_y key old h =
      elim (Bool-cases (bytes_eq second key)) [
        | inl same ↦ (
          y,
          lookup-insert second key y (insert first x chain.accounts) ∙ rw same refl,
          allow_y old (rw (bytes_eq→≡ second key same) h),
        )
        | inr other ↦
            let (new, found, e) = put-Keeps chain first x ext allow_x key old h in
            (new, lookup-insert second key y (insert first x chain.accounts) ∙ rw other found, e)
      ]

  pub put-AllSound :
      (rt : Runtime Ext) (chain : Chain Ext) (at : Pubkey) (account : Account) (ext : Ext)
      → IsSound rt at account
      → AllSound rt chain
      → AllSound rt (put at account (record chain { ext = ext }))
  unfolding put
  put-AllSound rt chain at account ext sound valid key x h = elim (Bool-cases (bytes_eq at key)) [
    | inl same ↦
        subst (λ k. IsSound rt k x) (bytes_eq→≡ at key same)
          (subst (IsSound rt at) (some-eq (rw same at found)) sound)
    | inr other ↦ valid key x (rw other at found)
  ]
    where
      found : (if bytes_eq at key then some account else lookup key chain.accounts) ≡ some x
      found = rw (lookup-insert at key account chain.accounts) at h

      some-eq : some account ≡ some x → account ≡ x
      some-eq e = cc

  -- An account that did not exist.
  pub fresh-allowed :
      (chain : Chain Ext) (at : Pubkey) (account : Account)
      → is_fresh chain at ≡ true
      → (old : Account) → lookup at chain.accounts ≡ some old
      → Evolves old account
  fresh-allowed chain at account fresh old h = absurd (ground (arith, is_fresh-lookup chain at))
