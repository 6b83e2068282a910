-- ===== src/Tests/Scenario.antt =====
-- The keys, the accounts and the arguments of a history: the config, a pet and its launch, a throne,
-- two captures, a settlement, a root over the entries of three holders, and a claim.
use kolz_protocol.Base.{ℕ, ◌+◌, Option, none, some, List, [], ◌∷◌, map, replicate}
use kolz_protocol.Bytes.{Bytes, Pubkey, to_le_bytes}
use kolz_protocol.Constants
use kolz_protocol.Merkle
use kolz_protocol.Merkle.Entries.{Entry}
use kolz_protocol.Merkle.Membership.{entry_leaf}
use kolz_protocol.Chain.{Tx}
use kolz_protocol.Instructions.InitConfig
use kolz_protocol.Instructions.BindLaunch
use kolz_protocol.Instructions.MintKolNft
use kolz_protocol.Instructions.TakeThrone
use kolz_protocol.Instructions.SettleThrone
use kolz_protocol.Instructions.CommitDistributionRoot
use kolz_protocol.Instructions.ClaimHolderFees
use kolz_protocol.Tests.World.{World, key, derive, toy_hash}

-- The keys of the accounts.
abbrev pub admin : Pubkey
admin = key 1

abbrev pub oracle : Pubkey
oracle = key 2

abbrev pub kol_owner : Pubkey
kol_owner = key 3

abbrev pub pump_mint : Pubkey
pump_mint = key 4

abbrev pub nft_mint : Pubkey
nft_mint = key 5

abbrev pub alice : Pubkey
alice = key 6

abbrev pub bob : Pubkey
bob = key 7

abbrev pub kol_name : Bytes
kol_name = 107 ∷ 111 ∷ 108 ∷ replicate 29 0

abbrev pub config : Pubkey
config = derive (Constants.config_seed ∷ []) 255

abbrev pub fee_vault : Pubkey
fee_vault = derive (Constants.fee_vault_seed ∷ []) 255

abbrev pub pet : Pubkey
pet = derive (Constants.pet_seed ∷ kol_owner ∷ kol_name ∷ []) 255

abbrev pub launch : Pubkey
launch = derive (Constants.launch_seed ∷ pet ∷ []) 255

abbrev pub king : Pubkey
king = derive (Constants.king_seed ∷ pet ∷ []) 255

abbrev pub escrow_owner : Pubkey
escrow_owner = derive (Constants.king_escrow_seed ∷ king ∷ []) 255

abbrev pub distribution : ℕ → Pubkey
distribution epoch = derive (Constants.distribution_seed ∷ to_le_bytes 8 epoch ∷ []) 255

abbrev pub receipt : Pubkey → ℕ → Pubkey
receipt holder epoch = derive (Constants.holder_claim_seed ∷ holder ∷ to_le_bytes 8 epoch ∷ []) 255

abbrev pub world : World
world = record {
  slot = 1000;
  tokens =
      (key 8, record { mint = pump_mint; owner = alice; amount = 100 })
      ∷ (key 9, record { mint = pump_mint; owner = bob; amount = 250 })
      ∷ (key 10, record { mint = nft_mint; owner = alice; amount = 1 })
      ∷ (key 11, record { mint = nft_mint; owner = bob; amount = 1 })
      ∷ (key 12, record { mint = nft_mint; owner = escrow_owner; amount = 1 })
      ∷ [];
}

-- The same tokens, a settlement period later.
abbrev pub later_world : World
later_world = record world { slot = 1000 + Constants.throne_settlement_slots }

-- Every key is writable, and the given key has signed.
abbrev pub tx_of : Pubkey → Tx
tx_of signer = record {
  signers = signer ∷ [];
  writable =
      signer
      ∷ config
      ∷ fee_vault
      ∷ pet
      ∷ launch
      ∷ king
      ∷ nft_mint
      ∷ distribution 3
      ∷ receipt alice 3
      ∷ key 10
      ∷ key 11
      ∷ key 12
      ∷ key 13
      ∷ [];
}

abbrev pub init_accounts : InitConfig.Accounts
init_accounts = record {
  admin = admin;
  config = config;
  fee_vault = fee_vault;
  system_program = Constants.system_program_id;
}

abbrev pub bind_accounts : BindLaunch.Accounts
bind_accounts = record {
  oracle = oracle;
  kol_owner = kol_owner;
  pump_mint = pump_mint;
  pet = pet;
  launch = launch;
  config = config;
  system_program = Constants.system_program_id;
}

abbrev pub mint_accounts : MintKolNft.Accounts
mint_accounts = record {
  oracle = oracle;
  config = config;
  pet = pet;
  launch = launch;
  king = king;
  nft_mint = nft_mint;
  escrow_owner = escrow_owner;
  escrow_vault = key 12;
  metadata = key 13;
  token_program = key 101;
  associated_token_program = key 102;
  token_metadata_program = key 103;
  system_program = Constants.system_program_id;
  rent = key 104;
}

-- Alice captures out of the vault, Bob out of Alice's account.
abbrev pub take_accounts : Pubkey → Pubkey → Pubkey → Pubkey → TakeThrone.Accounts
take_accounts challenger pump_ata nft_ata source = record {
  challenger = challenger;
  config = config;
  pet = pet;
  launch = launch;
  king = king;
  pump_mint = pump_mint;
  challenger_pump_ata = pump_ata;
  nft_mint = nft_mint;
  escrow_vault = key 12;
  escrow_owner = escrow_owner;
  challenger_nft_ata = nft_ata;
  prev_champion_nft_ata = source;
  token_program = key 101;
}

abbrev pub alice_takes : TakeThrone.Accounts
alice_takes = take_accounts alice (key 8) (key 10) (key 12)

abbrev pub bob_takes : TakeThrone.Accounts
bob_takes = take_accounts bob (key 9) (key 11) (key 10)

abbrev pub settle_accounts : SettleThrone.Accounts
settle_accounts = record {
  oracle = oracle;
  config = config;
  pet = pet;
  king = king;
  champion_nft_ata = key 11;
  nft_mint = nft_mint;
  token_program = key 101;
}

abbrev pub commit_accounts : ℕ → CommitDistributionRoot.Accounts
commit_accounts epoch = record {
  oracle = oracle;
  config = config;
  distribution = distribution epoch;
  system_program = Constants.system_program_id;
}

abbrev pub claim_accounts : Pubkey → ℕ → ClaimHolderFees.Accounts
claim_accounts holder epoch = record {
  holder = holder;
  config = config;
  distribution = distribution epoch;
  holder_claim = receipt holder epoch;
  fee_vault = fee_vault;
  system_program = Constants.system_program_id;
}

abbrev pub entries : List Entry
entries =
    record { holder = alice; epoch = 3; amount = 500 }
    ∷ record { holder = bob; epoch = 3; amount = 40 }
    ∷ record { holder = kol_owner; epoch = 3; amount = 7 }
    ∷ []

abbrev pub alice_proof : List Bytes
alice_proof = Merkle.proof_for toy_hash (map (entry_leaf toy_hash) entries) 0

abbrev pub value_or : {A : Type 0} → A → Option A → A
value_or default none = default
value_or default (some a) = a

abbrev pub the_root : Bytes
the_root = value_or [] (Merkle.root toy_hash (map (entry_leaf toy_hash) entries))
