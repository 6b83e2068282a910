-- ===== src/Tests/World.antt =====
-- A runtime that computes. Its hash is a polynomial in the bytes, spread over an array of 32; a
-- derived address is the hash of its seeds and bump. Its state is a slot and the token accounts;
-- a call into another program goes through and changes nothing, but `revoke` asks for the owner
-- of the account when the runtime is `strict`.
use kolz_protocol.Base.{
  ℕ, ◌+◌, ◌*◌, ◌%◌, ◌≡◌, refl, Bool, true, false, Option, none, some, List, [], ◌∷◌, ◌++◌,
  if◌then◌else◌, length, replicate,
}
use kolz_protocol.Bytes.{Bytes, Pubkey, bytes_eq}
use kolz_protocol.Runtime.{Runtime, TokenAccount}

unfoldable pub roll : ℕ → Bytes → ℕ
roll h [] = h
roll h (b ∷ bs) = roll ((h * 257 + (b + 1)) % 18446744073709551557) bs

abbrev pub toy_hash : Bytes → Bytes
toy_hash bs = roll 0 bs ∷ replicate 31 0

unfoldable pub flatten : List Bytes → Bytes
flatten [] = []
flatten (s ∷ seeds) = length s ∷ (s ++ flatten seeds)

abbrev pub derive : List Bytes → ℕ → Pubkey
derive seeds bump = toy_hash (flatten (seeds ++ (bump ∷ []) ∷ []))

pub record World : Type 0 where
  pub slot : ℕ
  pub tokens : List (Pubkey × TokenAccount)

unfoldable pub find_token : List (Pubkey × TokenAccount) → Pubkey → Option TokenAccount
find_token [] key = none
find_token ((k, t) ∷ tokens) key = if bytes_eq k key then some t else find_token tokens key

unfoldable pub owns : Option TokenAccount → Pubkey → Bool
owns none authority = false
owns (some t) authority = bytes_eq t.owner authority

unfoldable pub revoke_as : Bool → Pubkey → Pubkey → World → Option World
unfolding owns
revoke_as false account authority world = some world
revoke_as true account authority world =
    if owns (find_token world.tokens account) authority then some world else none

abbrev pub key : ℕ → Pubkey
key n = replicate 32 n

abbrev pub toy : Bool → Runtime World
toy strict = record {
  keccak = toy_hash;
  find_program_address = λ seeds. (derive seeds 255, 255);
  create_program_address = λ seeds. some (toy_hash (flatten seeds));
  token_program_id = key 101;
  associated_token_program_id = key 102;
  token_metadata_program_id = key 103;
  rent_id = key 104;
  clock_slot = λ world. some world.slot;
  lamports = λ world k. 1_000_000;
  token_account = λ world k. find_token world.tokens k;
  is_mint = λ world k. true;
  create_account = λ payer new size world. some world;
  create_mint = λ payer mint decimals authority freeze signers world. some world;
  create_associated_token_account = λ payer new mint owner world. some world;
  system_transfer = λ source target amount signers world. some world;
  mint_to = λ mint target authority amount signers world. some world;
  transfer = λ source target authority amount signers world. some world;
  approve = λ account delegate authority amount signers world. some world;
  revoke = λ account authority signers world. revoke_as strict account authority world;
  create_metadata = λ at mint authority payer name symbol uri signers world. some world;
}

pub length-toy_hash : (b : Bytes) → length (toy_hash b) ≡ 32
length-toy_hash b = refl
