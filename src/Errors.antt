-- ===== src/Errors.antt =====
-- programs/cols/src/errors.rs, and the result type of the handlers. An error is one of the
-- program's, one that the account constraints raise (Anchor's), or a failure of a call into
-- another program.
use kolz_protocol.Base.{◌⊎◌, inl, inr, ◌≡◌, refl, Bool, true, false, Option, none, some}

pub data ColsError : Type 0 where
  unauthorized oracle_mismatch admin_mismatch not_top_holder settlement_period_ended : ColsError
  already_settled settlement_not_ready missing_prev_champion_ata missing_metadata_program :
      ColsError
  already_claimed invalid_proof epoch_not_committed insufficient_vault invalid_amount : ColsError
  name_too_long uri_too_long symbol_too_long bonding_curve_not_initialized : ColsError
  fee_bps_out_of_range pet_mismatch launch_mismatch mint_mismatch escrow_supply_mismatch : ColsError
  ata_owner_mismatch : ColsError

-- The errors of Anchor's account constraints that the accounts of this program can raise.
pub data AnchorError : Type 0 where
  account_not_signer constraint_mut constraint_seeds account_not_initialized : AnchorError
  account_discriminator_mismatch account_already_in_use invalid_program_id : AnchorError
  account_not_enough_keys account_sysvar_mismatch : AnchorError

pub data Error : Type 0 where
  cols : ColsError → Error
  anchor : AnchorError → Error
  call_failed : Error

pub data Result {ℓ} (A : Type ℓ) : Type ℓ where
  err : Error → Result A
  ok : A → Result A

-- `require!(test, error)`.
abbrev pub require : Bool → ColsError → Result (Unit {0})
require true e = ok tt
require false e = err (cols e)

-- A constraint that Anchor checks.
abbrev pub ensure : Bool → AnchorError → Result (Unit {0})
ensure true e = ok tt
ensure false e = err (anchor e)

-- `option.ok_or(error)`.
abbrev pub ok_or {ℓ} : {A : Type ℓ} → Option A → Error → Result A
ok_or none e = err e
ok_or (some a) e = ok a

-- The operator `?`: the first error ends the handler.
infixl 5 ◌>>◌ ◌>>=◌
abbrev pub ◌>>=◌ {ℓ κ} : {A : Type ℓ} {B : Type κ} → Result A → (A → Result B) → Result B
err error >>= rest = err error
ok value >>= rest = rest value

abbrev pub ◌>>◌ {κ} : {B : Type κ} → Result (Unit {0}) → Result B → Result B
check >> rest = check >>= λ _. rest

-- To split on a computed result and keep the equation.
pub Result-cases {ℓ} :
    {A : Type ℓ} (r : Result A) → ((a : A) × (r ≡ ok a)) ⊎ ((e : Error) × (r ≡ err e))
Result-cases (ok a) = inl (a, refl)
Result-cases (err e) = inr (e, refl)
