-- ===== src/Tests/Layouts.antt =====
-- The bytes of accounts, names and hashes.
use kolz_protocol.Base.{ℕ, ◌≡◌, ◌≢◌, refl, List, false, some, [], ◌∷◌, ◌++◌, replicate, arith}
use kolz_protocol.Bytes.{Bytes, Pubkey, to_le_bytes}
use kolz_protocol.Constants
use kolz_protocol.Constants.{ascii}
use kolz_protocol.Errors.{ok}
use kolz_protocol.State.King
use kolz_protocol.State.King.{KingOfHill}
use kolz_protocol.State.Layout.{put_king}
use kolz_protocol.State.Layout.Sizes.{KingOfHillFits}
use kolz_protocol.Chain.{find_bump}
use kolz_protocol.Cli.Error.{done}
use kolz_protocol.Cli.Output.{fmt_hex32}
use kolz_protocol.Cli.Hex.{decode_hex32}
use kolz_protocol.Cli.Hex.RoundTrip.{decode_hex32-fmt_hex32}
use kolz_protocol.Cli.Accounts.{read_king}
use kolz_protocol.Cli.BorshCodec.{kol_name_to_string}
use kolz_protocol.Cli.BorshCodec.Names.{kol_name_to_string-encode_kol_name}
use kolz_protocol.Cli.BorshCodec.Padding
use kolz_protocol.Cli.BorshCodec.Padding.{decode_account, decode_account-ne-done}
use kolz_protocol.Cli.BorshCodec.RoundTrip.{view_king, read_king-put_king}
use kolz_protocol.Cli.Pdas
use kolz_protocol.Cli.Pdas.{encode_kol_name, encoded}
use kolz_protocol.Cli.Pdas.Agree.{as_result, encode_kol_name-pack_kol_name, find_bump-pdas}
use kolz_protocol.Utils.{pack_kol_name}
use kolz_protocol.Tests.World
use kolz_protocol.Cli.Discriminator
use kolz_protocol.Tests.World.{toy, toy_hash, key}
use kolz_protocol.Tests.Scenario
use kolz_protocol.Tests.Codec.{toy_borsh, toy_borsh-IsBorsh}
use kolz_protocol.Tests.Client
use kolz_protocol.Tests.Client.{host}

-- A throne that Bob holds.
abbrev throne : KingOfHill
throne = record King.default {
  pet = Scenario.pet;
  nft_mint = Scenario.nft_mint;
  nft_escrow_vault = key 12;
  current_champion = Scenario.bob;
  champion_balance = 250;
  last_captured_slot = 1_000;
  take_overs = 2;
  bump = 255;
  nft_escrow_vault_bump = 255;
  settles_at_slot = 1_513_000;
}

throne-Fits : KingOfHillFits throne
throne-Fits = record {
  pet = refl;
  nft_mint = refl;
  nft_escrow_vault = refl;
  current_champion = refl;
  champion_balance = omega arith;
  last_captured_slot = omega arith;
  take_overs = omega arith;
  bump = omega arith;
  nft_escrow_vault_bump = omega arith;
  settles_at_slot = omega arith;
  reserved = refl;
}

read_king-put_king_example :
    read_king toy_borsh (put_king toy_borsh throne ++ (9 ∷ []))
    ≡ some (view_king throne, replicate 5 0 ++ (9 ∷ []))
read_king-put_king_example =
    read_king-put_king toy_borsh toy_borsh-IsBorsh throne (9 ∷ []) throne-Fits

decode_account-ne-done_example :
    decode_account toy_hash toy_borsh
      (ascii "unexpected length")
      Padding.king
      (ascii "throne")
      (Client.throne_bytes ++ replicate 5 0)
    ≢ done Client.throne
unfolding Discriminator.account World.roll to_le_bytes
decode_account-ne-done_example =
    decode_account-ne-done toy_hash toy_borsh toy_borsh-IsBorsh (ascii "unexpected length")
      Padding.king (ascii "throne") (Client.throne_bytes ++ replicate 5 0) Client.throne refl

kol_name_to_string-encode_kol_name_example :
    (buf : Bytes) × (encode_kol_name (ascii "kol") ≡ encoded buf)
    × (kol_name_to_string (λ bytes. bytes) buf ≡ ascii "kol")
kol_name_to_string-encode_kol_name_example =
    kol_name_to_string-encode_kol_name (λ bytes. bytes) (ascii "kol") (omega arith)
      (λ e. omega (arith, e), (λ e. omega (arith, e), (λ e. omega (arith, e), tt)))

encode_kol_name-pack_kol_name_example :
    as_result (encode_kol_name (ascii "kol")) ≡ pack_kol_name (ascii "kol")
encode_kol_name-pack_kol_name_example = encode_kol_name-pack_kol_name (ascii "kol")

decode_hex32-fmt_hex32_example :
    decode_hex32 (ascii "root") (fmt_hex32 (0 ∷ 255 ∷ replicate 30 171))
    ≡ done (0 ∷ 255 ∷ replicate 30 171)
decode_hex32-fmt_hex32_example =
    decode_hex32-fmt_hex32 (ascii "root") (0 ∷ 255 ∷ replicate 30 171) refl (ground arith)

find_bump-pdas_example :
    let accepts =
      λ (seeds : List Bytes) (pda : Pubkey × ℕ). find_bump (toy false) seeds pda.0 ≡ ok pda.1 in
    let find = host.find_program_address in
    accepts (Constants.config_seed ∷ []) (Pdas.config find (key 99))
    × accepts
        (Constants.pet_seed ∷ Scenario.kol_owner ∷ Scenario.kol_name ∷ [])
        (Pdas.pet find (key 99) Scenario.kol_owner Scenario.kol_name)
    × accepts (Constants.launch_seed ∷ Scenario.pet ∷ []) (Pdas.launch find (key 99) Scenario.pet)
    × accepts (Constants.king_seed ∷ Scenario.pet ∷ []) (Pdas.king find (key 99) Scenario.pet)
    × accepts
        (Constants.distribution_seed ∷ to_le_bytes 8 3 ∷ [])
        (Pdas.distribution find (key 99) 3)
    × accepts
        (Constants.holder_claim_seed ∷ Scenario.alice ∷ to_le_bytes 8 3 ∷ [])
        (Pdas.holder_claim find (key 99) Scenario.alice 3)
    × accepts (Constants.fee_vault_seed ∷ []) (Pdas.fee_vault find (key 99))
find_bump-pdas_example =
    find_bump-pdas (toy false) host.find_program_address (key 99) (λ seeds. refl) Scenario.kol_owner
      Scenario.kol_name Scenario.pet Scenario.alice 3
