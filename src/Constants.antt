-- ===== src/Constants.antt =====
-- programs/cols/src/constants.rs: seeds, byte budgets and protocol numbers.
use kolz_protocol.Base.{ℕ, [], ◌∷◌, ◌^◌}
use kolz_protocol.Bytes.{Bytes, Pubkey, default_pubkey}
use Prim.Native.Char.{code}
use Prim.Native.String.{String}

-- The bytes of an ASCII literal.
abbrev pub ascii : String → Bytes
ascii String.[] = []
ascii (String.◌∷◌ c s) = code c ∷ ascii s

abbrev pub config_seed : Bytes
config_seed = ascii "config"

abbrev pub pet_seed : Bytes
pet_seed = ascii "pet"

abbrev pub launch_seed : Bytes
launch_seed = ascii "launch"

abbrev pub king_seed : Bytes
king_seed = ascii "king"

abbrev pub king_escrow_seed : Bytes
king_escrow_seed = ascii "king_escrow"

abbrev pub distribution_seed : Bytes
distribution_seed = ascii "distribution"

abbrev pub holder_claim_seed : Bytes
holder_claim_seed = ascii "holder_claim"

abbrev pub fee_vault_seed : Bytes
fee_vault_seed = ascii "fee_vault"

abbrev pub kol_name_len : ℕ
kol_name_len = 32

abbrev pub max_metadata_name_len : ℕ
max_metadata_name_len = 32

abbrev pub max_metadata_symbol_len : ℕ
max_metadata_symbol_len = 10

abbrev pub max_metadata_uri_len : ℕ
max_metadata_uri_len = 200

abbrev pub throne_settlement_slots : ℕ
throne_settlement_slots = 1_512_000

abbrev pub max_fee_bps : ℕ
max_fee_bps = 10_000

abbrev pub system_program_id : Pubkey
system_program_id = default_pubkey

abbrev pub nft_decimals : ℕ
nft_decimals = 0

abbrev pub nft_supply : ℕ
nft_supply = 1

-- The bounds of the Rust types `u64` and `u32`.
abbrev pub u64_bound : ℕ
u64_bound = 2 ^ 64

abbrev pub u32_bound : ℕ
u32_bound = 2 ^ 32
